-- ===== src/Fanout/Queue.antt =====
-- `measureAll` as it runs: a dispatcher that hands indices to workers, which finish in any order.
--
-- A step is the dispatcher handing out the next index to a worker that is free, a worker storing
-- its result, or the dispatcher closing the queue, at the end of the list or, once the context is done,
-- before it. The context can become done between any two steps, which is no step of the code. `workers` is `min(c.concurrency, len(refs))`.
pub mod Interleaving
use Prim.Native.Nat.{min}
use digitalocean_exporter.Base.{
  ℕ, zero, suc, ◌+◌, ◌-◌, ◌≤◌, ◌<◌, nat_eq, Bool, true, false, ◌==◌, Option, none, some, List, [],
  ◌∷◌, ◌++◌, GoError, Result, ok, length, get_elem?, ltb, ◌≡◌, if◌then◌else◌,
}
use digitalocean_exporter.Fanout.{
  Reading, Reference, Measurement, zero_reading, measured, unmeasured,
}

-- Between two steps: the next index of the dispatcher's loop, whether the queue is still open, whether
-- `ctx.Done()` is closed, the indices that workers are measuring, and the slots of `results` that are
-- written.
pub record State (P : Type 0) : Type 0 where
  pub next : ℕ
  pub is_open : Bool
  pub is_canceled : Bool
  pub busy : List ℕ
  pub results : ℕ → Option (Measurement P)

module _ {P : Type 0} where
  abbrev pub starting : State P
  starting = record {
    next = 0;
    is_open = true;
    is_canceled = false;
    busy = [];
    results = λ i. none;
  }

  -- `results[i] = …`
  unfoldable pub store :
      ℕ → Measurement P → (ℕ → Option (Measurement P)) → ℕ → Option (Measurement P)
  store i m results j = if i == j then some m else results j

  -- `make([]result, len(refs))` has the zero value in the slots that nobody writes.
  abbrev zero_result : Measurement P
  zero_result = record { ref = record { id = ""; name = "" }; got = ok zero_reading }

  abbrev pub slot : Option (Measurement P) → Measurement P
  slot none = zero_result
  slot (some m) = m

module _ {P : Type 0} (measure : Reference → Result (Reading P)) (concurrency : ℕ)
    (refs : List Reference) where
  abbrev pub workers : ℕ
  workers = min concurrency (length refs)

  pub data Step : State P → State P → Type 0 where
    hand_out :
        {s : State P}
        → s.is_open ≡ true
        → s.next < length refs
        → length s.busy < workers
        → Step s (record s { next = s.next + 1; busy = s.next ∷ s.busy })
    finish :
        {s : State P} (before after : List ℕ) (i : ℕ) (ref : Reference)
        → s.busy ≡ before ++ i ∷ after
        → get_elem? refs i ≡ some ref
        → Step s (record s {
          busy = before ++ after;
          results = store i (measured measure ref) s.results;
        })
    context_done :
        {s : State P}
        → s.is_canceled ≡ true
        → s.is_open ≡ true
        → s.next < length refs
        → Step s (record s { is_open = false })
    close :
        {s : State P}
        → s.is_open ≡ true
        → s.next ≡ length refs
        → Step s (record s { is_open = false })

  -- Any number of steps, and the end of the context among them.
  pub data Runs : State P → State P → Type 0 where
    stay : {s : State P} → Runs s s
    then_step : {s t u : State P} → Runs s t → Step t u → Runs s u
    then_canceled : {s t : State P} → Runs s t → Runs s (record t { is_canceled = true })

  -- Where `wg.Wait()` returns.
  abbrev pub IsOver : State P → Type 0
  IsOver s = (s.is_open ≡ false) × (s.busy ≡ [])

  -- `results` after the last loop of `measureAll`, from the index `i` on; `e` is `ctx.Err()`.
  unfoldable pub outcome_from : GoError → State P → ℕ → List Reference → List (Measurement P)
  outcome_from e s i [] = []
  outcome_from e s i (r ∷ rs) =
      (if ltb i s.next then slot (s.results i) else unmeasured measure e r)
      ∷ outcome_from e s (i + 1) rs

  abbrev pub outcome : GoError → State P → List (Measurement P)
  outcome e s = outcome_from e s 0 refs
