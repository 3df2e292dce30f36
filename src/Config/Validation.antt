-- ===== src/Config/Validation.antt =====
-- Validation: which flags pass, and what a configuration that was returned is sure to have.
use digitalocean_exporter.Base.{
  ℤ, String, string_eq, Bool, true, ◌||◌, List, [], ◌∷◌, ◌==◌, ◌≡◌, ◌↔◌, refl, sym, ap, ◌∙◌, arith,
  All, contains, Bool-cases, inl, inr, Result, ok, err, ◌>>◌, sentinel, wrap, Sentinel,
  non_positive_interval, non_positive_timeout, beq_refl,
}
use digitalocean_exporter.Base.Int.{positive}
use digitalocean_exporter.Base.Assoc.{Assoc, keys}
use digitalocean_exporter.Text.{str_le, place, sort_strings}
use digitalocean_exporter.Config.{
  CollectorFlags, TimedFlags, Flags, require_positive, interval_flag, timeout_flag, interval_of,
  validate_simple, validate_timed, timed, validate_durations,
}

require_positive-ok :
    (flag : String) (d : ℤ) (s : Sentinel)
    → (require_positive flag d s ≡ ok tt) ↔ (positive d ≡ true)
unfolding require_positive
require_positive-ok flag d s = (λ h. ground arith, λ h. ground arith)

contains-place :
    (x k : String) (ys : List String) → contains (place x ys) k ≡ (x == k || contains ys k)
unfolding place
contains-place x k [] = refl
contains-place x k (y ∷ ys) = elim (Bool-cases (str_le x y)) [
  | inl t ↦ rw t
  | inr f ↦ rw f (ground (arith, contains-place x k ys))
]

-- Sorting loses no name and invents none.
contains-sort_strings :
    (k : String) (xs : List String) → contains (sort_strings xs) k ≡ contains xs k
unfolding sort_strings
contains-sort_strings k [] = refl
contains-sort_strings k (x ∷ xs) =
    contains-place x k (sort_strings xs)
    ∙ ap (λ (b : Bool). x == k || b) (contains-sort_strings k xs)

module _ (flag : String) (d : ℤ) (s : Sentinel) (rest : Result (Unit {0})) where
  then_ok : (require_positive flag d s >> rest) ≡ ok tt → (positive d ≡ true) × (rest ≡ ok tt)
  unfolding require_positive
  then_ok h = elim (Bool-cases (positive d)) [
    | inl t ↦ (t, rw t at h)
    | inr f ↦ let e : err (wrap _ (sentinel s)) ≡ ok tt = rw f at h in cc
  ]

  ok_then : positive d ≡ true → rest ≡ ok tt → (require_positive flag d s >> rest) ≡ ok tt
  unfolding require_positive
  ok_then t h = rw t h

-- The validation of the simple collectors passes exactly if the interval of each name is positive.
validate_simple-ok :
    (simple : Assoc String CollectorFlags) (names : List String)
    → (validate_simple simple names ≡ ok tt)
      ↔ ((k : String) → contains names k ≡ true → positive (interval_of simple k) ≡ true)
unfolding validate_simple
validate_simple-ok simple [] = (λ h k c. cc, λ h. refl)
validate_simple-ok simple (name ∷ names) =
    let (rest, rest_back) = validate_simple-ok simple names in
    (
      λ h k c.
          let (p, q) =
            then_ok (interval_flag name) (interval_of simple name) non_positive_interval
              (validate_simple simple names) h in
          elim (Bool-cases (name == k)) [
            | inl t ↦ rw (← (string_eq.beq_iff name k).0 t) p
            | inr f ↦ rest q k (ground arith)
          ],
      λ h.
          ok_then (interval_flag name) (interval_of simple name) non_positive_interval
            (validate_simple simple names) (h name (rw (beq_refl name)))
            (rest_back (λ k c. h k (rw c (ground arith)))),
    )

abbrev pub TimedPositive : List (String × TimedFlags) → Type 0
TimedPositive =
    All (λ entry. (positive entry.1.interval ≡ true) × (positive entry.1.timeout ≡ true))

validate_timed-ok :
    (cs : List (String × TimedFlags)) → (validate_timed cs ≡ ok tt) ↔ TimedPositive cs
unfolding validate_timed
validate_timed-ok [] = (λ h. tt, λ h. refl)
validate_timed-ok ((name, c) ∷ cs) = (
  λ h.
      let (p, q) = then_ok (interval_flag name) c.interval non_positive_interval second h in
      let (r, t) =
        then_ok (timeout_flag name) c.timeout non_positive_timeout (validate_timed cs) q in
      ((p, r), (validate_timed-ok cs).0 t),
  λ h. ok_then (interval_flag name) c.interval non_positive_interval second h.0.0 (
      ok_then (timeout_flag name) c.timeout non_positive_timeout (validate_timed cs) h.0.1
        ((validate_timed-ok cs).1 h.1)),
)
  where
    second : Result (Unit {0})
    second =
        require_positive (timeout_flag name) c.timeout non_positive_timeout >> validate_timed cs

both_ok : (a b : Result (Unit {0})) → (a >> b) ≡ ok tt → (a ≡ ok tt) × (b ≡ ok tt)
both_ok (ok tt) b h = (refl, h)
both_ok (err e) b h = cc

module _ {F : Type 0} (f : Flags F) where
  -- All durations are positive: the timeout, the interval of every simple collector, and interval and
  -- timeout of every other.
  pub record ValidDurations : Type 0 where
    pub timeout : positive f.timeout ≡ true
    pub simple :
        (k : String) → contains (keys f.simple) k ≡ true → positive (interval_of f.simple k) ≡ true
    pub timed : TimedPositive (timed f)

  -- The durations pass exactly if all of them are positive.
  pub validate_durations-ok : (validate_durations f ≡ ok tt) ↔ ValidDurations
  unfolding validate_durations
  validate_durations-ok = (
    λ h.
        let (p, q) = then_ok "do.timeout" f.timeout non_positive_timeout _ h in
        let (s, t) = both_ok (validate_simple f.simple names) (validate_timed (timed f)) q in
        record {
          timeout = p;
          simple = λ k c.
              (validate_simple-ok f.simple names).0 s k
                (contains-sort_strings k (keys f.simple) ∙ c);
          timed = (validate_timed-ok (timed f)).0 t;
        },
    λ v. ok_then "do.timeout" f.timeout non_positive_timeout _ v.timeout (
        rw
          ((validate_simple-ok f.simple names).1
            (λ k c. v.simple k (sym (contains-sort_strings k (keys f.simple)) ∙ c)))
          ((validate_timed-ok (timed f)).1 v.timed)),
  )
    where
      names : List String
      names = sort_strings (keys f.simple)
