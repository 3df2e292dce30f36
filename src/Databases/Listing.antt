-- ===== src/Databases/Listing.antt =====
-- `listClusters`: it comes to an end, and what it lists.
use digitalocean_exporter.Base.{
  ℕ, zero, suc, ◌+◌, ◌*◌, ◌≤◌, ◌<◌, nat_eq, ltb, String, string_eq, Bool, true, false, not, ◌||◌,
  ◌==◌, some, List, [], ◌∷◌, Result, ok, err, keep, length, contains, All, ◌≡◌, refl, sym, ap, ◌∙◌,
  arith, Bool-cases, inl, inr, beq_ne, ne_of_beq, wrap, length-keep-le,
}
use digitalocean_exporter.Filter.{Filter}
use digitalocean_exporter.Paging.{ListOptions}
use digitalocean_exporter.Databases.{
  ApiDatabase, Cluster, Client, Scan, marked, scan, clusters_from, list_clusters,
  databases_per_page, first_options, nothing_seen,
}

-- How many of the ids have not been seen.
abbrev unseen : List String → List String → ℕ
unseen ids seen = length (keep (λ i. not (contains seen i)) ids)

unseen_le : (ids seen : List String) (x : String) → unseen ids (x ∷ seen) ≤ unseen ids seen
unseen_le [] seen x = omega arith
unseen_le (i ∷ ids) seen x = ground (arith, unseen_le ids seen x)

unseen_lt :
    (ids seen : List String) (x : String)
    → contains ids x ≡ true
    → contains seen x ≡ false
    → unseen ids (x ∷ seen) + 1 ≤ unseen ids seen
unseen_lt [] seen x h f = cc
unseen_lt (i ∷ ids) seen x h f = elim (Bool-cases (i == x)) [
  | inl t ↦
      let same : (x == i) ≡ true = (string_eq.beq_iff x i).1 (sym ((string_eq.beq_iff i x).0 t)) in
      let new : contains seen i ≡ false = ap (contains seen) ((string_eq.beq_iff i x).0 t) ∙ f in
      ground (arith, unseen_le ids seen x)
  | inr n ↦
      let other : (x == i) ≡ false = beq_ne x i (λ e. ne_of_beq i x n (sym e)) in
      let in_rest : contains ids x ≡ true = rw n at h in
      ground (arith, unseen_lt ids seen x in_rest f)
]

scan-unseen :
    (f : Filter) (ids : List String) (page : List ApiDatabase) (s : Scan)
    → All (λ (db : ApiDatabase). contains ids db.id ≡ true) page
    → (scan f page s).repeated ≡ false
    → unseen ids (scan f page s).seen + length page ≤ unseen ids s.seen
unfolding scan
scan-unseen f ids [] s a h = omega arith
scan-unseen f ids (db ∷ page) s a h = elim (Bool-cases (contains s.seen db.id)) [
  | inl t ↦ (let z : true ≡ false = rw t at h in cc)
  | inr n ↦
      let later : (scan f page (marked f db s)).repeated ≡ false = rw n at h in
      rw n (
        omega (
          arith,
          scan-unseen f ids page (marked f db s) a.1 later,
          unseen_lt ids s.seen db.id a.0 n,
        ))
]

ge_of_ltb : (a b : ℕ) → ltb a b ≡ false → b ≤ a
ge_of_ltb a b h = ground arith

or_false : (a b : Bool) → (a || b) ≡ false → (a ≡ false) × (b ≡ false)
or_false true b h = cc
or_false false b h = (refl, h)

module _ {W Links : Type 0} (client : Client W Links) (f : Filter) (ids : List String)
    (serves : (opts : ListOptions) (w v : W) (page : List ApiDatabase)
      → client.list opts w ≡ (ok page, v)
      → All (λ (db : ApiDatabase). contains ids db.id ≡ true) page) where
  clusters_from-ends :
      (fuel : ℕ) (opts : ListOptions) (s : Scan) (w : W)
      → unseen ids s.seen < databases_per_page * fuel
      → (r : Result (List Cluster) × W) × (clusters_from client f fuel opts s w ≡ some r)
  unfolding clusters_from
  clusters_from-ends zero opts s w h = absurd (omega arith)
  clusters_from-ends (suc fuel) opts s w h =
      by_answer (client.list opts w).0 (client.list opts w).1 refl
        (λ t v l. clusters_from-ends fuel (record opts { page = opts.page + 1 }) t v l)
    where
      by_page :
          (t : Scan) (page : List ApiDatabase) (v : W) (stop : Bool)
          → (stop ≡ false → unseen ids t.seen < databases_per_page * fuel)
          → ((t : Scan) (v : W)
              → unseen ids t.seen < databases_per_page * fuel
              → (r : Result (List Cluster) × W) × (clusters_from client f fuel
                    (record opts { page = opts.page + 1 })
                    t
                    v
                  ≡ some r))
          → (r : Result (List Cluster) × W) × ((elim stop [
            | true ↦ some (ok t.next, v)
            | false ↦ clusters_from client f fuel (record opts { page = opts.page + 1 }) t v
          ])
              ≡ some r)
      by_page t page v true l ih = ((ok t.next, v), refl)
      by_page t page v false l ih = ih t v (l refl)

      by_answer :
          (got : Result (List ApiDatabase)) (v : W)
          → client.list opts w ≡ (got, v)
          → ((t : Scan) (v : W)
              → unseen ids t.seen < databases_per_page * fuel
              → (r : Result (List Cluster) × W) × (clusters_from client f fuel
                    (record opts { page = opts.page + 1 })
                    t
                    v
                  ≡ some r))
          → (r : Result (List Cluster) × W) × ((elim got [
            | err e ↦ some (err (wrap "list databases" e), v)
            | ok page ↦
                let t = scan f page s in
                elim (t.repeated || ltb (length page) databases_per_page) [
                  | true ↦ some (ok t.next, v)
                  | false ↦ clusters_from client f fuel (record opts { page = opts.page + 1 }) t v
                ]
          ])
              ≡ some r)
      by_answer (err e) v q ih = (_, refl)
      by_answer (ok page) v q ih =
          let t = scan f page s in
          by_page t page v (t.repeated || ltb (length page) databases_per_page)
            (λ stop.
              let (fresh, full) = or_false t.repeated (ltb (length page) databases_per_page) stop in
              let used = scan-unseen f ids page s (serves opts w v page q) fresh in
              omega (arith, ge_of_ltb (length page) databases_per_page full, used))
            ih

  -- Whatever the endpoint does with the page it is asked for, the walk comes to an end: each further page
  -- costs two hundred clusters that were not seen before.
  pub list_clusters-ends :
      (fuel : ℕ) (w : W)
      → length ids < databases_per_page * fuel
      → (r : Result (List Cluster) × W) × (list_clusters client f fuel w ≡ some r)
  unfolding list_clusters
  list_clusters-ends fuel w h =
      clusters_from-ends fuel first_options nothing_seen w
        (omega (arith, length-keep-le (λ i. not (contains [] i)) ids))
