-- ===== src/Base/Tally.antt =====
-- Counts in a map: `counts[key]++`.
use Prim.Native.Nat.{ℕ, ◌+◌}
use mathlib.Core.Path.{◌≡◌, ap, ◌∙◌}
use mathlib.Core.List.{List, [], ◌∷◌}
use mathlib.Core.Option.{Option, none, some}
use mathlib.Core.Logic.{inl, inr}
use native.Mathlib.Omega.{arith}
use digitalocean_exporter.Base.Tests.{if◌then◌else◌, Bool-cases}
use digitalocean_exporter.Base.Comparable.{Eq, ◌==◌}
use digitalocean_exporter.Base.Lists.{keep, length}
use digitalocean_exporter.Base.Assoc.{Assoc, lookup, insert, lookup-insert}

abbrev pub count_of : Option ℕ → ℕ
count_of none = 0
count_of (some n) = n

module _ {K : Type 0} ⦃e : Eq K⦄ where
  -- `counts[key]++`; a missing key counts as zero.
  unfoldable pub bump : K → Assoc K ℕ → Assoc K ℕ
  bump key counts = insert key (count_of (lookup key counts) + 1) counts

  unfoldable pub tally : Assoc K ℕ → List K → Assoc K ℕ
  unfolding bump
  tally counts [] = counts
  tally counts (key ∷ keys) = tally (bump key counts) keys

  abbrev pub times_in : K → List K → ℕ
  times_in k keys = length (keep (λ j. j == k) keys)

  -- The count of a key is what it was, and how often the key came.
  pub count-tally :
      (counts : Assoc K ℕ) (keys : List K) (k : K)
      → count_of (lookup k (tally counts keys)) ≡ count_of (lookup k counts) + times_in k keys
  unfolding tally bump
  count-tally counts [] k = omega arith
  count-tally counts (key ∷ keys) k =
      count-tally (bump key counts) keys k ∙ elim (Bool-cases (key == k)) [
        | inl t ↦
            let same : key ≡ k = (e.beq_iff key k).0 t in
            let now : count_of (lookup k (bump key counts)) ≡ count_of (lookup k counts) + 1 =
              ap count_of (lookup-insert key k (count_of (lookup key counts) + 1) counts)
              ∙ rw t (ap (λ j. count_of (lookup j counts) + 1) same) in
            rw t (omega (arith, now))
        | inr f ↦
            let now : count_of (lookup k (bump key counts)) ≡ count_of (lookup k counts) =
              ap count_of (lookup-insert key k (count_of (lookup key counts) + 1) counts) ∙ rw f in
            rw f (omega (arith, now))
      ]

  lookup-bump :
      (counts : Assoc K ℕ) (key k : K) (m : ℕ)
      → lookup k counts ≡ some m
      → lookup k (bump key counts) ≡ some (m + (if key == k then 1 else 0))
  unfolding bump
  lookup-bump counts key k m h =
      lookup-insert key k (count_of (lookup key counts) + 1) counts ∙ elim (Bool-cases (key == k)) [
        | inl t ↦
            let same : key ≡ k = (e.beq_iff key k).0 t in
            rw t (
              ap (λ j. some (count_of (lookup j counts) + 1)) same
              ∙ ap (λ o. some (count_of o + 1)) h)
        | inr f ↦ rw f (h ∙ ap some (omega arith))
      ]

  -- A key that has a count keeps it, with one more for each time the key came.
  pub lookup-tally :
      (counts : Assoc K ℕ) (keys : List K) (k : K) (m : ℕ)
      → lookup k counts ≡ some m
      → lookup k (tally counts keys) ≡ some (m + times_in k keys)
  unfolding tally
  lookup-tally counts [] k m h = h ∙ ap some (omega arith)
  lookup-tally counts (key ∷ keys) k m h =
      lookup-tally (bump key counts) keys k _ (lookup-bump counts key k m h)
      ∙ ap some
          (elim (Bool-cases (key == k)) [ inl t ↦ rw t (omega arith) | inr f ↦ rw f (omega arith) ])
