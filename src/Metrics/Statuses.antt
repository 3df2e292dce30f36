-- ===== src/Metrics/Statuses.antt =====
-- The loop that several collectors repeat (`knownReplicaStatuses`, `knownNodeStates`, `knownStatuses`,
-- `knownPhases`): one series for every documented status, and one for a status that is not documented.
use digitalocean_exporter.Base.{
  nat_eq, String, string_eq, true, false, not, ◌&&◌, ◌==◌, List, [], ◌∷◌, ◌++◌, map, ◌⊎◌, contains,
  beq_refl, Distinct, if◌then◌else◌, ◌≡◌, ◌≢◌, refl, sym, ap, ◌∙◌, Bool-cases, inl, inr,
}
use digitalocean_exporter.Metrics.{Gauge, gauge, count, bool_value}

-- The statuses that are reported: the documented ones, and the current one if it is not among them.
unfoldable pub statuses : List String → String → List String
statuses documented current =
    if not (current == "") && not (contains documented current)
    then documented ++ current ∷ []
    else documented

unfoldable pub status_gauges : String → List String → String → List String → List Gauge
status_gauges desc labels current [] = []
status_gauges desc labels current (s ∷ rest) =
    gauge desc (bool_value (s == current)) (labels ++ s ∷ [])
    ∷ status_gauges desc labels current rest

-- One series for each status, 1 for the current one and 0 for the others.
unfoldable pub one_hot : String → List String → List String → String → List Gauge
unfolding statuses status_gauges
one_hot desc labels documented current =
    status_gauges desc labels current (statuses documented current)

-- The series of a status that is the current one, and of one that is not.
abbrev pub one : String → List String → String → Gauge
one desc labels s = gauge desc (count 1) (labels ++ s ∷ [])

abbrev pub zero_series : String → List String → String → Gauge
zero_series desc labels s = gauge desc (count 0) (labels ++ s ∷ [])

module _ (desc : String) (labels : List String) (current : String) where
  status_gauges_absent :
      (ss : List String)
      → contains ss current ≡ false
      → status_gauges desc labels current ss ≡ map (zero_series desc labels) ss
  unfolding status_gauges
  status_gauges_absent [] h = refl
  status_gauges_absent (s ∷ ss) h = elim (Bool-cases (s == current)) [
    | inl t ↦ let z : true ≡ false = rw t at h in cc
    | inr f ↦ rw f (ap (λ gs. zero_series desc labels s ∷ gs) (status_gauges_absent ss (rw f at h)))
  ]

  -- The series of these statuses are zeros around one for the current status.
  abbrev pub Singled : List String → List Gauge → Type 0
  Singled ss gauges =
      (before : List String) × (after : List String) × (gauges
        ≡ map (zero_series desc labels) before
          ++ one desc labels current ∷ map (zero_series desc labels) after)
      × (before ++ current ∷ after ≡ ss)

  status_gauges_present :
      (ss : List String)
      → Distinct ss
      → contains ss current ≡ true
      → Singled ss (status_gauges desc labels current ss)
  unfolding status_gauges
  status_gauges_present [] d h = cc
  status_gauges_present (s ∷ ss) d h = elim (Bool-cases (s == current)) [
    | inl t ↦
        let same : s ≡ current = (string_eq.beq_iff s current).0 t in
        let rest = status_gauges_absent ss (ap (contains ss) (sym same) ∙ d.0) in
        (
          [],
          ss,
          rw t (
              ap (λ x. one desc labels x ∷ status_gauges desc labels current ss) same
              ∙ ap (λ gs. one desc labels current ∷ gs) rest),
          ap (λ x. x ∷ ss) (sym same),
        )
    | inr f ↦
        let (before, after, e, q) = status_gauges_present ss d.1 (rw f at h) in
        (s ∷ before, after, rw f (ap (λ gs. zero_series desc labels s ∷ gs) e), ap (λ xs. s ∷ xs) q)
  ]

  status_gauges_last :
      (ss : List String)
      → contains ss current ≡ false
      → status_gauges desc labels current (ss ++ current ∷ [])
        ≡ map (zero_series desc labels) ss ++ one desc labels current ∷ []
  unfolding status_gauges
  status_gauges_last [] h = rw (beq_refl current) refl
  status_gauges_last (s ∷ ss) h = elim (Bool-cases (s == current)) [
    | inl t ↦ let z : true ≡ false = rw t at h in cc
    | inr f ↦ rw f (ap (λ gs. zero_series desc labels s ∷ gs) (status_gauges_last ss (rw f at h)))
  ]

  -- The series of a status, one for each documented status in its order, and one more at the end for a
  -- status that is set and not documented: exactly one of them is 1, that of the current status, and all
  -- others are 0. A status that is not set, and not documented, leaves every documented one at 0.
  pub one_hot-Singled :
      (documented : List String)
      → Distinct documented
      → (current ≢ ""
          → (Singled documented (one_hot desc labels documented current)
              × (contains documented current ≡ true))
            ⊎ (Singled (documented ++ current ∷ []) (one_hot desc labels documented current)
                × (contains documented current ≡ false)))
        × (current ≡ ""
            → contains documented current ≡ false
            → one_hot desc labels documented current ≡ map (zero_series desc labels) documented)
  unfolding one_hot statuses
  one_hot-Singled documented d = (
    λ n. elim (Bool-cases (contains documented current)) [
      | inl t ↦ elim (Bool-cases (current == "")) [
        | inl z ↦ absurd (n ((string_eq.beq_iff current "").0 z))
        | inr z ↦ inl (rw (t, z) (status_gauges_present documented d t), t)
      ]
      | inr f ↦ elim (Bool-cases (current == "")) [
        | inl z ↦ absurd (n ((string_eq.beq_iff current "").0 z))
        | inr z ↦ inr ((documented, [], rw (f, z) (status_gauges_last documented f), refl), f)
      ]
    ],
    λ e f.
        let z : (current == "") ≡ true = (string_eq.beq_iff current "").1 e in
        rw z (status_gauges_absent documented f),
  )
