-- ===== src/Timeseries/Laws.antt =====
-- `newest` returns a newest usable point, and `Latest` one sample for each series that has one.
use digitalocean_exporter.Base.{
  string_eq, true, false, Option, none, some, List, [], ◌∷◌, ◌≡◌, refl, sym, ◌⊎◌, ◌↔◌, inl, inr,
  arith, All,
}
use mathlib.Core.List.{Memᴰ}
use digitalocean_exporter.Timeseries.{Model, SamplePair, better, newest_from, newest, latest}

module _ {Value Stamp : Type 0} (model : Model Value Stamp) where
  -- `Timestamp.After` is a strict order in which points at one time are equals.
  pub record IsStrict : Type 0 where
    pub asymmetric : (a b : Stamp) → model.after a b ≡ true → model.after b a ≡ false
    pub negatively_transitive :
        (a b c : Stamp)
        → model.after a b ≡ false
        → model.after b c ≡ false
        → model.after a c ≡ false

  -- No usable point among `values` is after `p`.
  abbrev pub Newest : List (SamplePair Value Stamp) → SamplePair Value Stamp → Type 0
  Newest values p =
      All (λ q. model.is_nan q.value ≡ false → model.after q.timestamp p.timestamp ≡ false) values

  abbrev pub Unusable : List (SamplePair Value Stamp) → Type 0
  Unusable = All (λ q. model.is_nan q.value ≡ true)

  better-none :
      (best : Option (SamplePair Value Stamp)) (q : SamplePair Value Stamp)
      → better model best q ≡ none
      → (best ≡ none) × (model.is_nan q.value ≡ true)
  unfolding better
  better-none best q h = ground arith

  newest_from-none :
      (best : Option (SamplePair Value Stamp)) (values : List (SamplePair Value Stamp))
      → newest_from model best values ≡ none
      → (best ≡ none) × Unusable values
  unfolding newest_from
  newest_from-none best [] h = (h, tt)
  newest_from-none best (q ∷ values) h =
      let (b, rest) = newest_from-none (better model best q) values h in
      let (b', nan) = better-none best q b in (b', (nan, rest))

  newest_from-Unusable :
      (values : List (SamplePair Value Stamp))
      → Unusable values
      → newest_from model none values ≡ none
  unfolding newest_from better
  newest_from-Unusable [] h = refl
  newest_from-Unusable (q ∷ values) h = rw h.0 (newest_from-Unusable values h.1)

  -- There is no newest point exactly when every point is NaN, or there is none.
  pub newest-none_iff :
      (values : List (SamplePair Value Stamp)) → (newest model values ≡ none) ↔ Unusable values
  unfolding newest
  newest-none_iff values =
      (λ h. (newest_from-none none values h).1, λ h. newest_from-Unusable values h)

  -- The point so far is no later than `p`.
  abbrev Before : Option (SamplePair Value Stamp) → SamplePair Value Stamp → Type 0
  Before none p = Unit
  Before (some b) p = model.after b.timestamp p.timestamp ≡ false

  better-Before :
      (strict : IsStrict) (best : Option (SamplePair Value Stamp)) (q p : SamplePair Value Stamp)
      → Before (better model best q) p
      → Before best p × (model.is_nan q.value ≡ false → model.after q.timestamp p.timestamp ≡ false)
  unfolding better
  better-Before strict none q p h = ground arith
  better-Before strict (some b) q p h = ground (
    arith,
    strict.asymmetric q.timestamp b.timestamp,
    strict.negatively_transitive b.timestamp q.timestamp p.timestamp,
    strict.negatively_transitive q.timestamp b.timestamp p.timestamp,
  )

  newest_from-Newest :
      (strict : IsStrict) (best : Option (SamplePair Value Stamp))
      (values : List (SamplePair Value Stamp)) (p : SamplePair Value Stamp)
      → newest_from model best values ≡ some p
      → Before best p × Newest values p
  unfolding newest_from
  newest_from-Newest strict none [] p h = cc
  newest_from-Newest strict (some b) [] p h =
      (ground (arith, strict.asymmetric b.timestamp p.timestamp), tt)
  newest_from-Newest strict best (q ∷ values) p h =
      let (before, rest) = newest_from-Newest strict (better model best q) values p h in
      let (before', here) = better-Before strict best q p before in (before', (here, rest))

  better-some :
      (best : Option (SamplePair Value Stamp)) (q p : SamplePair Value Stamp)
      → better model best q ≡ some p
      → (best ≡ some p) ⊎ ((q ≡ p) × (model.is_nan q.value ≡ false))
  unfolding better
  better-some best q p h = ground arith

  newest_from-mem :
      (best : Option (SamplePair Value Stamp)) (values : List (SamplePair Value Stamp))
      (p : SamplePair Value Stamp)
      → newest_from model best values ≡ some p
      → (best ≡ some p) ⊎ (Memᴰ p values × (model.is_nan p.value ≡ false))
  unfolding newest_from
  newest_from-mem best [] p h = inl h
  newest_from-mem best (q ∷ values) p h = elim (newest_from-mem (better model best q) values p h) [
    | inr m ↦ inr (Memᴰ.tail m.0, m.1)
    | inl b ↦ elim (better-some best q p b) [
      | inl e ↦ inl e
      | inr e ↦ inr (Memᴰ.head (sym e.0), cc)
    ]
  ]

  -- The point that `newest` returns is one of the series, is no NaN, and no usable point is after it.
  pub newest-some :
      (strict : IsStrict) (values : List (SamplePair Value Stamp)) (p : SamplePair Value Stamp)
      → newest model values ≡ some p
      → Memᴰ p values × (model.is_nan p.value ≡ false) × Newest values p
  unfolding newest
  newest-some strict values p h =
      let (_, latest) = newest_from-Newest strict none values p h in
      elim (newest_from-mem none values p h) [ inl e ↦ cc | inr m ↦ (m.0, m.1, latest) ]
