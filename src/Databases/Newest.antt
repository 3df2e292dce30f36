-- ===== src/Databases/Newest.antt =====
-- The details of a cluster: the newest backup, and what a refresh with the lookups leaves.
use mathlib.Core.Path.{subst}
use digitalocean_exporter.Base.{
  ℕ, ℤ, true, false, Option, none, some, some_inj, none-some, List, [], ◌∷◌, GoError, All, ◌⊎◌, inl,
  inr, ◌≡◌, refl, sym, ap, String, Result, ◌∙◌, arith, Bool-cases,
}
use digitalocean_exporter.Base.Int.{ltb_ℤ, ◌≤ℤ◌}
use digitalocean_exporter.Details.{Fields, refresh_after}
use digitalocean_exporter.Details.Each.{Outcome}
use digitalocean_exporter.Details.Total.{Ends, refresh_after-total}
use digitalocean_exporter.Filter.{Filter}
use digitalocean_exporter.Databases.{ApiBackup, Cluster, ClusterDetails, Client, list_clusters}
use digitalocean_exporter.Databases.Refresh.{newest, fields, lookup_details, refresh}

ltb_ℤ_false : (a b : ℤ) → ltb_ℤ a b ≡ false → b ≤ℤ a
ltb_ℤ_false a b h = ground arith

ltb_ℤ_true : (a b : ℤ) → ltb_ℤ a b ≡ true → a ≤ℤ b
ltb_ℤ_true a b h = ground arith

le_trans : (a b c : ℤ) → a ≤ℤ b → b ≤ℤ c → a ≤ℤ c
le_trans a b c h k = omega arith

-- One of the backups was taken at this time.
abbrev pub Has : ℤ → List ApiBackup → Type 0
Has at [] = ⊥
Has at (b ∷ backups) = (b.created_at ≡ at) ⊎ Has at backups

-- What the loop knows of the time it started with and of the backups since.
abbrev IsNewest : Option ℤ → List ApiBackup → ℤ → Type 0
IsNewest none backups at = Has at backups × All (λ b. b.created_at ≤ℤ at) backups
IsNewest (some start) backups at =
    ((start ≡ at) ⊎ Has at backups) × (start ≤ℤ at) × All (λ b. b.created_at ≤ℤ at) backups

newest_from :
    (backups : List ApiBackup) (start : ℤ)
    → (at : ℤ) × (newest (some start) backups ≡ some at) × IsNewest (some start) backups at
unfolding newest
newest_from [] start = (start, refl, (inl refl, omega arith, tt))
newest_from (b ∷ backups) start = elim (Bool-cases (ltb_ℤ start b.created_at)) [
  | inl t ↦
      let (at, e, (h, l, a)) = newest_from backups b.created_at in
      (
        at,
        rw t e,
        (inr h, le_trans start b.created_at at (ltb_ℤ_true start b.created_at t) l, (l, a)),
      )
  | inr f ↦
      let (at, e, (h, l, a)) = newest_from backups start in
      (
        at,
        rw f e,
        (
          elim h [ inl q ↦ inl q | inr q ↦ inr (inr q) ],
          l,
          (le_trans b.created_at start at (ltb_ℤ_false start b.created_at f) l, a),
        ),
      )
]

-- The last backup is the newest of those that were listed, and there is none exactly if none was listed.
pub newest_lem :
    (backups : List ApiBackup)
    → ((at : ℤ)
        → newest none backups ≡ some at
        → Has at backups × All (λ b. b.created_at ≤ℤ at) backups)
      × (newest none backups ≡ none → backups ≡ [])
unfolding newest
newest_lem [] = ((λ at h. absurd (none-some h)), λ h. refl)
newest_lem (b ∷ backups) =
    let (at, e, (h, l, a)) = newest_from backups b.created_at in
    (
      λ at' q.
          subst (λ x. Has x (b ∷ backups) × All (λ c. c.created_at ≤ℤ x) (b ∷ backups))
            (some_inj (sym e ∙ q)) (h, (l, a)),
      λ q. absurd (none-some (sym q ∙ e)),
    )

-- The lookups fill in the details of a cluster, by its id, and a cluster that no lookup has answered for has
-- none.
abbrev pub filled_in : Fields Cluster ClusterDetails
filled_in = record {
  id = λ (cl : Cluster). cl.id;
  details = λ (cl : Cluster). cl.details;
  with_details = λ (d : ClusterDetails) (cl : Cluster). record cl { details = d };
  nothing = record { known = false; replicas = []; last_backup = none };
}

module _ {W Links : Type 0} (client : Client W Links) (f : Filter) where
  -- When the listing has ended, and each lookup ends with the fuel, a refresh with the lookups ends in one
  -- of three ways: the listing failed, and the clusters are the old ones; or every listed cluster is there,
  -- in the order of the list, with the details of its own lookup or, where that failed while the context
  -- was not done, with those that the old snapshot had for it; or a lookup failed after which the context
  -- was done, and the clusters are the old ones.
  pub refresh-Outcome :
      (fuel : ℕ) (snap : List Cluster) (w : W) (listed : Result (List Cluster) × W)
      → list_clusters client f fuel w ≡ some listed
      → ((id : String) (v : W) → Ends (lookup_details client fuel id v))
      → (e : Option GoError) × (after : List Cluster) × (u : W) × (refresh client f true fuel snap w
          ≡ some (e, after, u))
        × Outcome filled_in client.ctx_err (lookup_details client fuel) snap (some listed) e after u
  unfolding refresh
  refresh-Outcome fuel snap w listed h all =
      let (e, after, u, q, o) =
        refresh_after-total fields client.ctx_err (lookup_details client fuel) snap all listed in
      (
        e,
        after,
        u,
        ap (refresh_after fields client.ctx_err (lookup_details client fuel) true snap) h ∙ q,
        o,
      )
