-- ===== src/Base/Assoc.antt =====
-- Go's maps as association lists: a read of a missing key is `none`, a write replaces.
use mathlib.Core.Path.{◌≡◌, refl}
use mathlib.Core.List.{List, [], ◌∷◌, map}
use mathlib.Core.Option.{Option, none, some}
use mathlib.Core.Bool.{true, false}
use mathlib.Core.Logic.{inl, inr}
use native.Mathlib.Omega.{arith}
use digitalocean_exporter.Base.Tests.{if◌then◌else◌, Bool-cases}
use digitalocean_exporter.Base.Comparable.{Eq, ◌==◌}
use digitalocean_exporter.Base.Lists.{contains}

abbrev pub Assoc {ℓ κ} : Type ℓ → Type κ → Type (ℓ ⊔ κ)
Assoc K V = List (K × V)

module _ {ℓ κ} {K : Type ℓ} {V : Type κ} ⦃e : Eq K⦄ where
  unfoldable pub lookup : K → Assoc K V → Option V
  lookup k [] = none
  lookup k ((j, v) ∷ m) = if j == k then some v else lookup k m

  unfoldable pub insert : K → V → Assoc K V → Assoc K V
  insert key value [] = (key, value) ∷ []
  insert key value ((k, old) ∷ rest) =
      if k == key then (key, value) ∷ rest else (k, old) ∷ insert key value rest

  -- A read after a write sees the write at its key and the old map elsewhere.
  pub lookup-insert :
      (written read : K) (value : V) (m : Assoc K V)
      → lookup read (insert written value m)
        ≡ (if written == read then some value else lookup read m)
  unfolding lookup insert
  lookup-insert written read value [] = refl
  lookup-insert written read value ((k, old) ∷ rest) = ground (
    arith,
    lookup-insert written read value rest,
    e.beq_iff written read,
    e.beq_iff k written,
    e.beq_iff k read,
  )

  abbrev pub keys : Assoc K V → List K
  keys = map (λ (entry : K × V). entry.0)

  pub lookup-absent : (k : K) (m : Assoc K V) → contains (keys m) k ≡ false → lookup k m ≡ none
  unfolding lookup
  lookup-absent k [] h = refl
  lookup-absent k ((j, v) ∷ m) h = ground (arith, lookup-absent k m)

  pub lookup-present :
      (k : K) (m : Assoc K V) (v : V) → lookup k m ≡ some v → contains (keys m) k ≡ true
  lookup-present k m v h = elim (Bool-cases (contains (keys m) k)) [
    | inl t ↦ t
    | inr f ↦ cc (lookup-absent k m f)
  ]
