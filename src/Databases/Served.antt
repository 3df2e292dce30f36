-- ===== src/Databases/Served.antt =====
-- `listClusters` of an endpoint that pages, and of one that ignores the page it is asked for.
use mathlib.Core.Path.{subst}
use mathlib.Core.List.{append_assoc, append-nil}
use digitalocean_exporter.Base.{
  ℕ, zero, suc, ◌+◌, ◌≤◌, nat_eq, ltb, String, string_eq, Bool, true, false, some, List, [], ◌∷◌,
  ◌++◌, map, ok, keep, concat, length, contains, ◌≡◌, refl, sym, ap, ◌∙◌, arith, Bool-cases, inl,
  inr, beq_refl, keep-append, map-append,
}
use digitalocean_exporter.Filter.{Filter, matches}
use digitalocean_exporter.Paging.{ListOptions}
use digitalocean_exporter.Databases.{
  ApiDatabase, Cluster, Client, Scan, marked, new_cluster, scan, clusters_from, list_clusters,
  databases_per_page, first_options, nothing_seen,
}

abbrev pub id_of : ApiDatabase → String
id_of db = db.id

abbrev pub admits : Filter → ApiDatabase → Bool
admits f db = matches f db.tags db.region_slug

-- The clusters of a page that the filter admits.
abbrev pub clusters_of : Filter → List ApiDatabase → List Cluster
clusters_of f page = map new_cluster (keep (admits f) page)

-- No cluster of the list was seen, and none is in it twice.
abbrev pub Fresh : List String → List ApiDatabase → Type 0
Fresh seen [] = Unit
Fresh seen (db ∷ page) = (contains seen db.id ≡ false) × Fresh (db.id ∷ seen) page

clusters_of-append :
    (f : Filter) (xs ys : List ApiDatabase)
    → clusters_of f (xs ++ ys) ≡ clusters_of f xs ++ clusters_of f ys
clusters_of-append f xs ys =
    ap (map new_cluster) (keep-append (admits f) xs ys)
    ∙ map-append new_cluster (keep (admits f) xs) (keep (admits f) ys)

marked-next :
    (f : Filter) (db : ApiDatabase) (s : Scan) (rest : List ApiDatabase)
    → (marked f db s).next ++ clusters_of f rest ≡ s.next ++ clusters_of f (db ∷ rest)
marked-next f db s rest = elim (Bool-cases (admits f db)) [
  | inl t ↦ rw t (append_assoc s.next (new_cluster db ∷ []) (clusters_of f rest))
  | inr n ↦ rw n
]

-- A page of fresh clusters is taken whole; what is fresh after it was fresh with it.
scan-Fresh :
    (f : Filter) (page rest : List ApiDatabase) (s : Scan)
    → s.repeated ≡ false
    → Fresh s.seen (page ++ rest)
    → ((scan f page s).repeated ≡ false)
      × ((scan f page s).next ≡ s.next ++ clusters_of f page)
      × Fresh (scan f page s).seen rest
unfolding scan
scan-Fresh f [] rest s r h = (r, sym (append-nil s.next), h)
scan-Fresh f (db ∷ page) rest s r h =
    let (a, b, c) = scan-Fresh f page rest (marked f db s) r h.1 in
    rw h.0 (a, b ∙ marked-next f db s page, c)

scan-seen :
    (f : Filter) (db : ApiDatabase) (page : List ApiDatabase) (s : Scan)
    → contains s.seen db.id ≡ true
    → ((scan f (db ∷ page) s).repeated ≡ true) × ((scan f (db ∷ page) s).next ≡ s.next)
unfolding scan
scan-seen f db page s h = rw h (refl, refl)

abbrev pub asking : ℕ → ListOptions
asking page = record { page = page; per_page = databases_per_page }

module _ {W Links : Type 0} (client : Client W Links) (f : Filter) where
  -- From this page on the endpoint serves full pages, and then one that is not full.
  pub data Served : ℕ → W → List (List ApiDatabase) → W → Type 0 where
    final :
        {p : ℕ} {w v : W} (page : List ApiDatabase)
        → client.list (asking p) w ≡ (ok page, v)
        → ltb (length page) databases_per_page ≡ true
        → Served p w (page ∷ []) v
    full :
        {p : ℕ} {w v u : W} {pages : List (List ApiDatabase)} (page : List ApiDatabase)
        → client.list (asking p) w ≡ (ok page, v)
        → ltb (length page) databases_per_page ≡ false
        → Served (p + 1) v pages u
        → Served p w (page ∷ pages) u

  clusters_from-Served :
      (fuel : ℕ) {p : ℕ} {w u : W} {pages : List (List ApiDatabase)} (s : Scan)
      → s.repeated ≡ false
      → Fresh s.seen (concat pages)
      → Served p w pages u
      → length pages ≤ fuel
      → clusters_from client f fuel (asking p) s w
        ≡ some (ok (s.next ++ clusters_of f (concat pages)), u)
  unfolding clusters_from
  clusters_from-Served zero s r h (final page a l) k = absurd (omega arith)
  clusters_from-Served (suc fuel) {u = u} s r h (final page a l) k =
      let (x, y, z) = scan-Fresh f page [] s r h in
      rw (clusters_from, a, x, l, a)
        (ap (λ cs. some (ok cs, u))
          (y ∙ ap (λ g. s.next ++ clusters_of f g) (sym (append-nil page))))
  clusters_from-Served zero s r h (full page a l more) k = absurd (omega arith)
  clusters_from-Served (suc fuel) {u = u} s r h (full {pages = pages} page a l more) k =
      let (x, y, z) = scan-Fresh f page (concat pages) s r h in
      rw (clusters_from, a, x, l, a)
        (clusters_from-Served fuel (scan f page s) x z more (omega arith)
          ∙ ap (λ cs. some (ok cs, u))
              (ap (λ n. n ++ clusters_of f (concat pages)) y
                ∙ append_assoc s.next (clusters_of f page) (clusters_of f (concat pages))
                ∙ ap (λ g. s.next ++ g) (sym (clusters_of-append f page (concat pages)))))

  -- When the endpoint pages and no cluster stands in its pages twice, the list has the clusters of all its
  -- pages that the filter admits, in their order, from any fuel that covers the pages.
  pub list_clusters-Served :
      {w u : W} {pages : List (List ApiDatabase)} (fuel : ℕ)
      → Fresh [] (concat pages)
      → Served 1 w pages u
      → length pages ≤ fuel
      → list_clusters client f fuel w ≡ some (ok (clusters_of f (concat pages)), u)
  unfolding list_clusters
  list_clusters-Served fuel h r k = clusters_from-Served fuel nothing_seen refl h r k

  seen-scan :
      (page : List ApiDatabase) (s : Scan) (k : String)
      → contains s.seen k ≡ true
      → contains (scan f page s).seen k ≡ true
  unfolding scan
  seen-scan [] s k h = h
  seen-scan (db ∷ page) s k h = elim (Bool-cases (contains s.seen db.id)) [
    | inl t ↦ rw t h
    | inr n ↦ rw n (seen-scan page (marked f db s) k (ground arith))
  ]

  first-seen :
      (db : ApiDatabase) (page : List ApiDatabase)
      → contains (scan f (db ∷ page) nothing_seen).seen db.id ≡ true
  unfolding scan
  first-seen db page =
      seen-scan page (marked f db nothing_seen) db.id (ground (arith, beq_refl db.id))

  -- When the endpoint serves one list whatever page it is asked for, the list is taken once.
  pub list_clusters_unpaged :
      (fuel : ℕ) (db : ApiDatabase) (page : List ApiDatabase) (tick : W → W) (w : W)
      → Fresh [] (db ∷ page)
      → ((opts : ListOptions) (v : W) → client.list opts v ≡ (ok (db ∷ page), tick v))
      → (u : W) × (list_clusters client f (suc (suc fuel)) w
          ≡ some (ok (clusters_of f (db ∷ page)), u))
  unfolding list_clusters clusters_from
  list_clusters_unpaged fuel db page tick w h a =
      let (x, y, z) =
        scan-Fresh f (db ∷ page) [] nothing_seen refl
          (subst (Fresh []) (sym (append-nil (db ∷ page))) h) in
      let s = scan f (db ∷ page) nothing_seen in
      elim (Bool-cases (ltb (length (db ∷ page)) databases_per_page)) [
        | inl t ↦ (
          tick w,
          rw (clusters_from, a first_options w, x, t, a first_options w)
              (ap (λ cs. some (ok cs, tick w)) y),
        )
        | inr n ↦
            let first : contains s.seen db.id ≡ true = first-seen db page in
            let (again, same) = scan-seen f db page s first in
            (
              tick (tick w),
              rw
                  (
                    clusters_from,
                    a first_options w,
                    x,
                    n,
                    a first_options w,
                    a (record first_options { page = first_options.page + 1 }) (tick w),
                    again,
                    a first_options w,
                    a (record first_options { page = first_options.page + 1 }) (tick w),
                  )
                  (ap (λ cs. some (ok cs, tick (tick w))) (same ∙ y)),
            )
      ]
