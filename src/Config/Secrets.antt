-- ===== src/Config/Secrets.antt =====
-- `resolveSecret` and `spacesConfig`: where a secret comes from, and what an enabled Spaces collector
-- is sure to have.
use digitalocean_exporter.Base.{
  String, string_eq, ◌==◌, ◌≡◌, ◌≢◌, refl, arith, Bool-cases, inl, inr, Result, ok, err, ◌⊎◌,
  GoError, beq_ne, ne_of_beq,
}
use digitalocean_exporter.Text.{trim_space}
use digitalocean_exporter.Config.{trimmed_of, resolve_secret}

trimmed_of-ok :
    (file : String) (missing : GoError) (answer : Result String) (secret : String)
    → trimmed_of file missing answer ≡ ok secret
    → (secret ≢ "") × ((raw : String) × (answer ≡ ok raw) × (trim_space raw ≡ secret))
unfolding trimmed_of
trimmed_of-ok file missing (err e) secret h = cc
trimmed_of-ok file missing (ok raw) secret h = elim (Bool-cases (trim_space raw == "")) [
  | inl t ↦ ground arith
  | inr f ↦
      let e : trim_space raw ≡ secret = ground arith in
      (rw (← e) (ne_of_beq (trim_space raw) "" f), (raw, refl, e))
]

module _ (read_file : String → Result String) where
  -- A secret that resolves is not empty, and comes from the one source that was configured: it is the
  -- inline value, or the trimmed contents of the file.
  pub resolve_secret-ok :
      (inline file : String) (conflict missing : GoError) (secret : String)
      → resolve_secret read_file inline file conflict missing ≡ ok secret
      → (secret ≢ "")
        × (((file ≡ "") × (inline ≡ secret))
            ⊎ ((inline ≡ "")
                × ((raw : String) × (read_file file ≡ ok raw) × (trim_space raw ≡ secret))))
  unfolding resolve_secret
  resolve_secret-ok inline file conflict missing secret h = elim (Bool-cases (inline == "")) [
    | inl i ↦ elim (Bool-cases (file == "")) [
      | inl f ↦ ground arith
      | inr f ↦
          let e : trimmed_of file missing (read_file file) ≡ ok secret = ground arith in
          let (ne, source) = trimmed_of-ok file missing (read_file file) secret e in
          (ne, inr ((string_eq.beq_iff inline "").0 i, source))
    ]
    | inr i ↦ elim (Bool-cases (file == "")) [
      | inl f ↦
          let e : inline ≡ secret = ground arith in
          (rw (← e) (ne_of_beq inline "" i), inl ((string_eq.beq_iff file "").0 f, e))
      | inr f ↦ ground arith
    ]
  ]

  -- With both sources configured the error is the caller's conflict, and with none the caller's
  -- missing secret: no file is read for either.
  pub resolve_secret_errors :
      (inline file : String) (conflict missing : GoError)
      → ((inline ≢ "")
          → (file ≢ "")
          → resolve_secret read_file inline file conflict missing ≡ err conflict)
        × (resolve_secret read_file "" "" conflict missing ≡ err missing)
  unfolding resolve_secret
  resolve_secret_errors inline file conflict missing =
      (λ i f. rw (beq_ne inline "" i, beq_ne file "" f), refl)
