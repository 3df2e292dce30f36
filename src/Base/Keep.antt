-- ===== src/Base/Keep.antt =====
-- `keep`, the Boolean filter, and lists without repetition.
use mathlib.Core.Path.{◌≡◌, refl}
use mathlib.Core.Bool.{Bool, true, false, ◌&&◌}
use mathlib.Core.List.{List, [], ◌∷◌, ◌++◌, map}
use Prim.Native.Nat.{◌≤◌}
use native.Mathlib.Omega.{arith}
use digitalocean_exporter.Base.Tests.{Bool-cases}
use digitalocean_exporter.Base.Comparable.{Eq}
use digitalocean_exporter.Base.Lists.{keep, contains, length, All}
use mathlib.Core.Logic.{inl, inr}

module _ {ℓ} {A : Type ℓ} where
  pub keep_congr : (p q : A → Bool) (xs : List A) → ((x : A) → p x ≡ q x) → keep p xs ≡ keep q xs
  keep_congr p q [] h = refl
  keep_congr p q (x ∷ xs) h = rw (h x, keep_congr p q xs h)

  pub keep-keep : (p q : A → Bool) (xs : List A) → keep p (keep q xs) ≡ keep (λ x. p x && q x) xs
  keep-keep p q [] = refl
  keep-keep p q (x ∷ xs) = ground (arith, keep-keep p q xs)

  pub keep_all : (p : A → Bool) (xs : List A) → ((x : A) → p x ≡ true) → keep p xs ≡ xs
  keep_all p [] h = refl
  keep_all p (x ∷ xs) h = rw (h x, keep_all p xs h)

  pub keep-append : (p : A → Bool) (xs ys : List A) → keep p (xs ++ ys) ≡ keep p xs ++ keep p ys
  keep-append p [] ys = refl
  keep-append p (x ∷ xs) ys = ground (arith, keep-append p xs ys)

  pub length-keep-le : (p : A → Bool) (xs : List A) → length (keep p xs) ≤ length xs
  length-keep-le p [] = omega arith
  length-keep-le p (x ∷ xs) = ground (arith, length-keep-le p xs)

pub All-append {ℓ κ} :
    {A : Type ℓ} (P : A → Type κ) (xs ys : List A) → All P xs → All P ys → All P (xs ++ ys)
All-append P [] ys h k = k
All-append P (x ∷ xs) ys h k = (h.0, All-append P xs ys h.1 k)

pub All-map {ℓ κ ι} :
    {A : Type ℓ} {P : A → Type κ} {Q : A → Type ι} (xs : List A)
    → ((x : A) → P x → Q x)
    → All P xs
    → All Q xs
All-map [] f h = tt
All-map (x ∷ xs) f h = (f x h.0, All-map xs f h.1)

module _ {ℓ} {K : Type ℓ} ⦃e : Eq K⦄ where
  -- No element occurs twice.
  abbrev pub Distinct : List K → Type 0
  Distinct [] = Unit
  Distinct (k ∷ ks) = (contains ks k ≡ false) × Distinct ks

module _ {ℓ κ} {A : Type ℓ} {K : Type κ} ⦃e : Eq K⦄ (key : A → K) where
  pub contains-map-keep :
      (p : A → Bool) (k : K) (xs : List A)
      → contains (map key xs) k ≡ false
      → contains (map key (keep p xs)) k ≡ false
  contains-map-keep p k [] h = refl
  contains-map-keep p k (x ∷ xs) h = ground (arith, contains-map-keep p k xs)

  pub Distinct-keep :
      (p : A → Bool) (xs : List A) → Distinct (map key xs) → Distinct (map key (keep p xs))
  Distinct-keep p [] h = tt
  Distinct-keep p (x ∷ xs) h = elim (Bool-cases (p x)) [
    | inl t ↦ rw t (contains-map-keep p (key x) xs h.0, Distinct-keep p xs h.1)
    | inr f ↦ rw f (Distinct-keep p xs h.1)
  ]

  -- What a filter on the key leaves of the keys.
  pub contains-keep-key :
      (q : K → Bool) (k : K) (xs : List A)
      → contains (map key (keep (λ x. q (key x)) xs)) k ≡ (q k && contains (map key xs) k)
  contains-keep-key q k [] = ground arith
  contains-keep-key q k (x ∷ xs) = ground (arith, contains-keep-key q k xs, e.beq_iff (key x) k)
