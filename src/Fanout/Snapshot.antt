-- ===== src/Fanout/Snapshot.antt =====
-- `merge`, `report` and `Refresh`: what the snapshot holds after a refresh, and when it is a success.
use digitalocean_exporter.Base.{
  nat_eq, String, string_eq, ◌==◌, Option, none, some, List, [], ◌∷◌, map, Result, ok, err,
  if◌then◌else◌, ◌≡◌, refl, ap, ◌∙◌, Bool-cases, Option-cases, inl, inr,
}
use digitalocean_exporter.Base.Assoc.{Assoc, lookup, insert, lookup-insert}
use digitalocean_exporter.Fanout.{
  Reading, Reference, Measurement, index_from, merged, stale_of, merge,
}

module _ {P : Type 0} where
  -- The resource of the list with this id, the last one of several.
  abbrev pub find : String → List (Reading P) → Option (Reading P)
  find k [] = none
  find k (d ∷ ds) =
      let rest = find k ds in
      elim rest [ some x ↦ some x | none ↦ if d.id == k then some d else none ]

  abbrev or_else : Option (Reading P) → Option (Reading P) → Option (Reading P)
  or_else (some d) x = some d
  or_else none x = x

  lookup-index_from :
      (m : Assoc String (Reading P)) (ds : List (Reading P)) (k : String)
      → lookup k (index_from m ds) ≡ or_else (find k ds) (lookup k m)
  unfolding index_from
  lookup-index_from m [] k = refl
  lookup-index_from m (d ∷ ds) k =
      lookup-index_from (insert d.id d m) ds k ∙ elim (Option-cases (find k ds)) [
        | inl e ↦
            rw (e, lookup-insert d.id k d m)
              (elim (Bool-cases (d.id == k)) [ inl t ↦ rw t | inr f ↦ rw f ])
        | inr (x, e) ↦ rw e
      ]

  lookup-indexed : (ds : List (Reading P)) (k : String) → lookup k (index_from [] ds) ≡ find k ds
  unfolding lookup
  lookup-indexed ds k =
      lookup-index_from [] ds k
      ∙ elim (Option-cases (find k ds)) [ inl e ↦ rw e | inr (x, e) ↦ rw e ]

  -- The reading of the merged snapshot for one result.
  abbrev pub expected : List (Reading P) → Measurement P → Reading P
  expected snap r = elim r.got [ ok d ↦ d | err _ ↦ stale_of r.ref (find r.ref.id snap) ]

  merged_one :
      (snap : List (Reading P)) (ref : Reference) (got : Result (Reading P))
      → merged (index_from [] snap) (record { ref = ref; got = got })
        ≡ expected snap (record { ref = ref; got = got })
  merged_one snap ref (ok d) = refl
  merged_one snap ref (err e) = ap (stale_of ref) (lookup-indexed snap ref.id)

  merged-expected :
      (snap : List (Reading P)) (rs : List (Measurement P))
      → map (merged (index_from [] snap)) rs ≡ map (expected snap) rs
  merged-expected snap [] = refl
  merged-expected snap (r ∷ rs) = rw (merged_one snap r.ref r.got, merged-expected snap rs)

  -- The snapshot has one resource for each result, in their order, and no other. A measured resource is
  -- as measured; one that failed is marked down under the name it has now, with the readings of the
  -- previous snapshot, or with none when that did not hold it.
  pub merge_lem :
      (snap : List (Reading P)) (rs : List (Measurement P)) → merge snap rs ≡ map (expected snap) rs
  unfolding merge
  merge_lem snap rs = merged-expected snap rs
