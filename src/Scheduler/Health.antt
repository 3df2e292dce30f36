-- ===== src/Scheduler/Health.antt =====
-- The health gauges: what one refresh writes, and that no collector's refreshes touch another's.
use digitalocean_exporter.Base.{
  ℕ, ℤ, String, string_eq, Bool, true, false, Option, none, some, List, [], ◌∷◌, ◌==◌, ◌≡◌, refl,
  sym, ap, ◌∙◌, keep, Bool-cases, inl, inr, beq_refl,
}
use digitalocean_exporter.Base.Assoc.{Assoc, lookup, insert, lookup-insert}
use digitalocean_exporter.Scheduler.{
  Collector, Scheduler, Event, Moment, Failure, panic_error, failure, guarded_refresh,
  refresh_context, record_result, refresh, step, run,
}
use digitalocean_exporter.Scheduler.Ready.{name_of}

-- What the exposition and the readiness handler say of one collector.
pub record Health : Type 0 where
  pub success : Option ℕ
  pub duration : Option ℤ
  pub last_ok : Option ℤ
  pub ready : Option Bool

unfoldable pub health : Scheduler → String → Health
health s name = record {
  success = lookup name s.success;
  duration = lookup name s.duration;
  last_ok = lookup name s.last_ok;
  ready = lookup name s.ready;
}

-- The health after a refresh, by how it ended. A failure keeps the time of the last success and the
-- readiness, and an ordinary failure during shutdown keeps the success gauge too; a panic is recorded
-- whatever else is going on.
abbrev pub after : Option Failure → Bool → ℤ → ℤ → Health → Health
after none stopping elapsed unix h = record {
  success = some 1;
  duration = some elapsed;
  last_ok = some unix;
  ready = some true;
}
after (some (panic_error v)) stopping elapsed unix h = record h {
  success = some 0;
  duration = some elapsed;
}
after (some (failure e)) true elapsed unix h = record h { duration = some elapsed }
after (some (failure e)) false elapsed unix h = record h {
  success = some 0;
  duration = some elapsed;
}

lookup-insert_self :
    {V : Type 0} (k : String) (v : V) (m : Assoc String V) → lookup k (insert k v m) ≡ some v
lookup-insert_self k v m = rw (lookup-insert k k v m, beq_refl k)

lookup-insert_ne :
    {V : Type 0} (k j : String) (v : V) (m : Assoc String V)
    → (k == j) ≡ false
    → lookup j (insert k v m) ≡ lookup j m
lookup-insert_ne k j v m h = rw (lookup-insert k j v m, h)

health-record_result :
    (f : Option Failure) (stopping : Bool) (name : String) (elapsed unix : ℤ) (s : Scheduler)
    → health
        (record_result f stopping name unix
          (record s { duration = insert name elapsed s.duration }))
        name
      ≡ after f stopping elapsed unix (health s name)
unfolding health record_result
health-record_result none stopping name elapsed unix s = simp lookup-insert_self
health-record_result (some (panic_error v)) stopping name elapsed unix s = simp lookup-insert_self
health-record_result (some (failure e)) true name elapsed unix s = simp lookup-insert_self
health-record_result (some (failure e)) false name elapsed unix s = simp lookup-insert_self

-- The health of a collector after its refresh.
pub health-refresh :
    (at : Moment) (c : Collector) (timeout : ℤ) (s : Scheduler)
    → health (refresh at c timeout s) c.name
      ≡ after
          (guarded_refresh (refresh_context at c timeout) c)
          at.stopping
          at.elapsed
          at.unix
          (health s c.name)
unfolding refresh
health-refresh at c timeout s =
    health-record_result (guarded_refresh (refresh_context at c timeout) c) at.stopping c.name
      at.elapsed at.unix s

health-record_result_ne :
    (f : Option Failure) (stopping : Bool) (c name : String) (elapsed unix : ℤ) (s : Scheduler)
    → (c == name) ≡ false
    → health
        (record_result f stopping c unix (record s { duration = insert c elapsed s.duration }))
        name
      ≡ health s name
unfolding health record_result
health-record_result_ne none stopping c name elapsed unix s h = simp (lookup-insert, h)
health-record_result_ne (some (panic_error v)) stopping c name elapsed unix s h =
    simp (lookup-insert, h)
health-record_result_ne (some (failure e)) true c name elapsed unix s h = simp (lookup-insert, h)
health-record_result_ne (some (failure e)) false c name elapsed unix s h = simp (lookup-insert, h)

abbrev pub own : String → List Event → List Event
own name events = keep (λ ev. name_of ev == name) events

health-step_ne :
    (ev : Event) (s : Scheduler) (name : String)
    → (name_of ev == name) ≡ false
    → health (step ev s) name ≡ health s name
unfolding refresh
health-step_ne ev s name h =
    health-record_result_ne
      (guarded_refresh (refresh_context ev.at ev.entry.collector ev.entry.timeout)
        ev.entry.collector)
      ev.at.stopping (name_of ev) name ev.at.elapsed ev.at.unix s h

health-step :
    (ev : Event) (a b : Scheduler) (name : String)
    → health a name ≡ health b name
    → (name_of ev == name) ≡ true
    → health (step ev a) name ≡ health (step ev b) name
health-step ev a b name h e =
    let q : name_of ev ≡ name = (string_eq.beq_iff (name_of ev) name).0 e in
    let h' : health a (name_of ev) ≡ health b (name_of ev) = rw q h in
    let c = ev.entry.collector in
    let ended = guarded_refresh (refresh_context ev.at c ev.entry.timeout) c in
    rw (← q) (
      health-refresh ev.at c ev.entry.timeout a
      ∙ ap (after ended ev.at.stopping ev.at.elapsed ev.at.unix) h'
      ∙ sym (health-refresh ev.at c ev.entry.timeout b))

run-own :
    (events : List Event) (a b : Scheduler) (name : String)
    → health a name ≡ health b name
    → health (run events a) name ≡ health (run (own name events) b) name
unfolding run
run-own [] a b name h = h
run-own (ev ∷ events) a b name h = elim (Bool-cases (name_of ev == name)) [
  | inl e ↦ rw e (run-own events (step ev a) (step ev b) name (health-step ev a b name h e))
  | inr e ↦ rw e (run-own events (step ev a) b name (health-step_ne ev a name e ∙ h))
]

-- What is said of a collector after any refreshes of any collectors is what its own refreshes alone
-- would have left: a collector that fails, panics or is slow never shows in another's health.
pub health-run-own :
    (events : List Event) (s : Scheduler) (name : String)
    → health (run events s) name ≡ health (run (own name events) s) name
health-run-own events s name = run-own events s s name refl
