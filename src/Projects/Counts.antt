-- ===== src/Projects/Counts.antt =====
-- The counts of the resources by type.
use native.Mathlib.Nat.{zero-add}
use digitalocean_exporter.Base.{
  ℕ, ◌+◌, nat_eq, String, string_eq, Bool, ◌==◌, List, [], ◌∷◌, map, keep, length, ◌≡◌, refl, ◌∙◌,
  arith, if◌then◌else◌,
}
use digitalocean_exporter.Base.Assoc.{Assoc, lookup, insert}
use digitalocean_exporter.Base.Tally.{bump, tally}
use digitalocean_exporter.Projects.{
  ApiResource, TypeCount, urn_type, type_count, place_count, sort_counts, counts_of,
}

-- The figure that a list of counts gives for a type.
unfoldable pub total : String → List TypeCount → ℕ
total t [] = 0
total t (x ∷ xs) = let rest = total t xs in if x.resource_type == t then x.count + rest else rest

total-place_count :
    (t : String) (x : TypeCount) (xs : List TypeCount)
    → total t (place_count x xs) ≡ total t (x ∷ xs)
unfolding total place_count
total-place_count t x [] = refl
total-place_count t x (y ∷ ys) = ground (arith, total-place_count t x ys)

total-sort_counts : (t : String) (xs : List TypeCount) → total t (sort_counts xs) ≡ total t xs
unfolding total sort_counts
total-sort_counts t [] = refl
total-sort_counts t (x ∷ xs) =
    total-place_count t x (sort_counts xs) ∙ ground (arith, total-sort_counts t xs)

abbrev one_if : Bool → ℕ
one_if b = if b then 1 else 0

total-bump :
    (t key : String) (m : Assoc String ℕ)
    → total t (map type_count (bump key m)) ≡ total t (map type_count m) + one_if (key == t)
unfolding total bump insert lookup
total-bump t key [] = ground arith
total-bump t key ((k, n) ∷ m) =
    ground (arith, total-bump t key m, string_eq.beq_iff k key, string_eq.beq_iff key t)

total-tally :
    (t : String) (resources : List ApiResource) (m : Assoc String ℕ)
    → total t (map type_count (tally m (map (λ (r : ApiResource). urn_type r.urn) resources)))
      ≡ total t (map type_count m)
        + length (keep (λ (r : ApiResource). urn_type r.urn == t) resources)
unfolding tally
total-tally t [] m = omega arith
total-tally t (r ∷ rs) m =
    total-tally t rs (bump (urn_type r.urn) m) ∙ ground (arith, total-bump t (urn_type r.urn) m)

-- The counts of a project give for each type exactly the listed resources whose name is of that type, and
-- sorting them loses none.
pub total-counts_of :
    (t : String) (resources : List ApiResource)
    → total t (counts_of resources)
      ≡ length (keep (λ (r : ApiResource). urn_type r.urn == t) resources)
unfolding counts_of total
total-counts_of t resources =
    total-sort_counts t
      (map type_count (tally [] (map (λ (r : ApiResource). urn_type r.urn) resources)))
    ∙ total-tally t resources []
    ∙ zero-add _
