-- ===== src/Uptime/Settled.antt =====
-- What the checks of a snapshot say after a refresh.
use digitalocean_exporter.Base.{
  ℕ, ℤ, String, string_eq, Bool, true, false, ◌==◌, Option, none, some, List, [], ◌∷◌, map, GoError,
  Result, ok, err, ◌≡◌, ◌⊎◌, inl, inr, refl, sym, ap, ◌∙◌, Bool-cases, Option-cases, if◌then◌else◌,
}
use mathlib.Core.Path.{subst}
use digitalocean_exporter.Details.{refresh_after}
use digitalocean_exporter.Details.Each.{
  Filled, done, learned, carried, Stopped, here, further, Outcome, last_with, known_before,
}
use digitalocean_exporter.Details.Total.{refresh_after-total}
use digitalocean_exporter.Paging.{Api, all}
use digitalocean_exporter.Uptime.{
  ApiCheck, ApiState, State, Check, no_state, new_check, new_state, answered, fields, converted,
  refresh,
}

-- The state of the last check of a snapshot that has this id.
abbrev pub last_state : List Check → String → Option State
last_state [] id = none
last_state (ck ∷ snap) id =
    let rest = last_state snap id in
    elim rest [ some st ↦ some st | none ↦ if ck.id == id then some ck.state else none ]

abbrev state_in : Option State → State
state_in none = no_state
state_in (some st) = st

-- What a snapshot says of a check's state; nothing is known of one that it does not have.
abbrev pub state_before : List Check → String → State
state_before snap id = state_in (last_state snap id)

module _ (parse_time : String → Option ℤ) {W Links : Type 0} (list : Api ApiCheck W Links)
    (get_state : String → W → Result ApiState × W) (snap : List Check) where
  -- The lookups of a refresh one after another, and what they make of the checks: one whose lookup answers
  -- is up with that state, and one whose lookup fails while the context is not done is not up and has the
  -- state of the snapshot before.
  pub data Settles : W → List ApiCheck → List Check → W → Type 0 where
    settled : {w : W} → Settles w [] [] w
    is_up :
        {w v u : W} {uc : ApiCheck} {listed : List ApiCheck} {after : List Check} (st : ApiState)
        → get_state uc.id w ≡ (ok st, v)
        → Settles v listed after u
        → Settles w
            (uc ∷ listed)
            (record (new_check uc) { state = new_state parse_time st; up = true } ∷ after)
            u
    is_down :
        {w v u : W} {uc : ApiCheck} {listed : List ApiCheck} {after : List Check} (e : GoError)
        → get_state uc.id w ≡ (err e, v)
        → list.ctx_err v ≡ none
        → Settles v listed after u
        → Settles w
            (uc ∷ listed)
            (record (new_check uc) { state = state_before snap uc.id; up = false } ∷ after)
            u

  -- A lookup fails, and the context is done after it.
  pub data Stops : W → List ApiCheck → GoError → W → Type 0 where
    stops_here :
        {w v : W} {uc : ApiCheck} {listed : List ApiCheck} {x : GoError} (e : GoError)
        → get_state uc.id w ≡ (err e, v)
        → list.ctx_err v ≡ some x
        → Stops w (uc ∷ listed) e v
    stops_later :
        {w v u : W} {uc : ApiCheck} {listed : List ApiCheck} {e : GoError} (got : Result ApiState)
        → get_state uc.id w ≡ (got, v)
        → Stops v listed e u
        → Stops w (uc ∷ listed) e u

  answered-ok :
      (r : Result ApiState × W) (d : State × Bool) (v : W)
      → answered parse_time r ≡ some (ok d, v)
      → (st : ApiState) × (r ≡ (ok st, v)) × (d ≡ (new_state parse_time st, true))
  answered-ok (ok st, w) d v h = (st, cc, cc)
  answered-ok (err e, w) d v h = cc

  answered-err :
      (r : Result ApiState × W) (e : GoError) (v : W)
      → answered parse_time r ≡ some (err e, v)
      → r ≡ (err e, v)
  answered-err (ok st, w) e v h = cc
  answered-err (err x, w) e v h = cc

  answered-world :
      (r : Result ApiState × W) (got : Result (State × Bool)) (v : W)
      → answered parse_time r ≡ some (got, v)
      → r ≡ (r.0, v)
  answered-world (ok st, w) got v h = cc
  answered-world (err x, w) got v h = cc

  answered_returns :
      (r : Result ApiState × W) → (a : Result (State × Bool) × W) × (answered parse_time r ≡ some a)
  answered_returns (ok st, w) = (_, refl)
  answered_returns (err e, w) = (_, refl)

  last_state-with :
      (cks : List Check) (id : String)
      → last_state cks id
        ≡ (elim (last_with (fields parse_time) cks id) [ none ↦ none | some ck ↦ some ck.state ])
  last_state-with [] id = refl
  last_state-with (ck ∷ cks) id =
      let rest = last_state-with cks id in
      elim (Option-cases (last_with (fields parse_time) cks id)) [
        | inr (x, e) ↦
            let same : last_state cks id ≡ some x.state = rest ∙ rw e refl in rw (e, same) refl
        | inl n ↦
            let same : last_state cks id ≡ none = rest ∙ rw n refl in
            rw (n, same) (elim (Bool-cases (ck.id == id)) [ inl t ↦ rw t refl | inr f ↦ rw f refl ])
      ]

  known_before-state :
      (id : String) → known_before (fields parse_time) snap id ≡ (state_before snap id, false)
  known_before-state id =
      let same = last_state-with snap id in
      elim (Option-cases (last_with (fields parse_time) snap id)) [
        | inr (x, e) ↦
            let st : last_state snap id ≡ some x.state = same ∙ rw e refl in
            rw e (ap (λ o. (state_in o, false)) (sym st))
        | inl n ↦
            let st : last_state snap id ≡ none = same ∙ rw n refl in
            rw n (ap (λ o. (state_in o, false)) (sym st))
      ]

  abbrev ask : String → W → Option (Result (State × Bool) × W)
  ask id v = answered parse_time (get_state id v)

  abbrev before : String → State × Bool
  before = known_before (fields parse_time) snap

  Filled-Settles :
      (listed : List ApiCheck) {v u : W} {after : List Check}
      → Filled (fields parse_time) list.ctx_err ask before v (map new_check listed) after u
      → Settles v listed after u
  unfolding new_check
  Filled-Settles [] done = settled
  Filled-Settles (uc ∷ rest) {v = w} {u = u} (learned {v = v} {out = out} d a f) =
      let (st, got, is) = answered-ok (get_state uc.id w) d v a in
      subst
        (λ (x : State × Bool).
          Settles w (uc ∷ rest) (record (new_check uc) { state = x.0; up = x.1 } ∷ out) u)
        (sym is) (is_up st got (Filled-Settles rest f))
  Filled-Settles (uc ∷ rest) {v = w} {u = u} (carried {v = v} {out = out} e a q f) =
      subst
        (λ (x : State × Bool).
          Settles w (uc ∷ rest) (record (new_check uc) { state = x.0; up = x.1 } ∷ out) u)
        (sym (known_before-state uc.id))
        (is_down e (answered-err (get_state uc.id w) e v a) q (Filled-Settles rest f))

  Stopped-Stops :
      (listed : List ApiCheck) {v u : W} {e : GoError}
      → Stopped (fields parse_time) list.ctx_err ask before v (map new_check listed) e u
      → Stops v listed e u
  unfolding new_check
  Stopped-Stops [] h = elim h [ ]
  Stopped-Stops (uc ∷ rest) {v = w} (here {v = v} e a q) =
      stops_here e (answered-err (get_state uc.id w) e v a) q
  Stopped-Stops (uc ∷ rest) {v = w} (further {v = v} got a s) =
      stops_later _ (answered-world (get_state uc.id w) got v a) (Stopped-Stops rest s)

  -- How a refresh ends that has listed these checks.
  abbrev pub Left : W → List ApiCheck → Option GoError → List Check → W → Type 0
  Left v listed e after u =
      ((e ≡ none) × Settles v listed after u)
      ⊎ ((x : GoError) × (e ≡ some x) × (after ≡ snap) × Stops v listed x u)

  Outcome-Left :
      (listed : List ApiCheck) (v u : W) (e : Option GoError) (after : List Check)
      → Outcome
          (fields parse_time)
          list.ctx_err
          ask
          snap
          (some (ok (map new_check listed), v))
          e
          after
          u
      → Left v listed e after u
  Outcome-Left listed v u e after (inl (good, filled)) = inl (good, Filled-Settles listed filled)
  Outcome-Left listed v u e after (inr (x, failed, old, stopped)) =
      inr (x, failed, old, Stopped-Stops listed stopped)

  -- A refresh whose listing gave its checks ends. Either it has exactly the listed checks in their order, each
  -- looked up in its turn: a check whose lookup answered is up with that answer for its state, and one whose
  -- lookup failed is not up and keeps the state that the last snapshot had for it. Or a lookup failed after
  -- which the context was done: that error is the refresh's, and the snapshot is as it was.
  pub refresh-Settles :
      (fuel : ℕ) (w : W) {v : W} (listed : List ApiCheck)
      → all "uptime checks" (λ (uc : ApiCheck). uc.id) list fuel w ≡ some (ok listed, v)
      → (e : Option GoError) × (after : List Check) × (u : W) × (refresh parse_time list get_state
            fuel snap w
          ≡ some (e, after, u))
        × Left v listed e after u
  unfolding refresh
  refresh-Settles fuel w {v = v} listed got =
      let (e, after, u, h, o) =
        refresh_after-total (fields parse_time) list.ctx_err ask snap
          (λ id x. answered_returns (get_state id x)) (ok (map new_check listed), v) in
      (
        e,
        after,
        u,
        ap
              (λ o.
                refresh_after (fields parse_time) list.ctx_err ask true snap
                  (converted parse_time o))
              got
            ∙ h,
        Outcome-Left listed v u e after o,
      )
