-- ===== src/Scheduler/Ready.antt =====
-- Readiness: what `Pending` holds after any refreshes.
use digitalocean_exporter.Base.{
  ℤ, String, string_eq, Bool, true, false, not, ◌&&◌, ◌||◌, Option, none, some, List, [], ◌∷◌, map,
  ◌==◌, ◌≡◌, refl, sym, ap, ◌∙◌, arith, keep, keep-keep, keep_congr,
}
use digitalocean_exporter.Base.Assoc.{insert, lookup-insert}
use digitalocean_exporter.Scheduler.{
  Entry, Scheduler, Event, Failure, panic_error, failure, guarded_refresh, refresh_context,
  record_result, refresh, is_ready, names, pending, step, run,
}

-- The refresh of the event returned no error.
unfoldable pub succeeded : Event → Bool
succeeded ev =
    elim (guarded_refresh (refresh_context ev.at ev.entry.collector ev.entry.timeout)
      ev.entry.collector) [ none ↦ true | some _ ↦ false ]

abbrev pub name_of : Event → String
name_of ev = ev.entry.collector.name

-- One of the events is a success of the collector with this name.
abbrev pub any_success : List Event → String → Bool
any_success [] name = false
any_success (ev ∷ events) name = (name_of ev == name && succeeded ev) || any_success events name

abbrev no_failure : Option Failure → Bool
no_failure none = true
no_failure (some _) = false

is_ready-record_result :
    (f : Option Failure) (stopping : Bool) (c : String) (unix : ℤ) (s : Scheduler) (name : String)
    → is_ready (record_result f stopping c unix s) name
      ≡ (is_ready s name || (c == name && no_failure f))
unfolding is_ready record_result
is_ready-record_result none stopping c unix s name =
    ground (arith, lookup-insert c name true s.ready, string_eq.beq_iff c name)
is_ready-record_result (some (panic_error v)) stopping c unix s name = ground arith
is_ready-record_result (some (failure e)) true c unix s name = ground arith
is_ready-record_result (some (failure e)) false c unix s name = ground arith

is_ready-timed :
    (c : String) (elapsed : ℤ) (s : Scheduler) (name : String)
    → is_ready (record s { duration = insert c elapsed s.duration }) name ≡ is_ready s name
unfolding is_ready
is_ready-timed c elapsed s name = refl

is_ready-step :
    (ev : Event) (s : Scheduler) (name : String)
    → is_ready (step ev s) name ≡ (is_ready s name || (name_of ev == name && succeeded ev))
unfolding refresh succeeded
is_ready-step ev s name =
    let c = ev.entry.collector in
    let ended = guarded_refresh (refresh_context ev.at c ev.entry.timeout) c in
    let timed = record s { duration = insert c.name ev.at.elapsed s.duration } in
    is_ready-record_result ended ev.at.stopping c.name ev.at.unix timed name
    ∙ ground (arith, is_ready-timed c.name ev.at.elapsed s name)

-- After any refreshes a collector is ready exactly if it was before, or one of its refreshes succeeded.
pub is_ready-run :
    (events : List Event) (s : Scheduler) (name : String)
    → is_ready (run events s) name ≡ (is_ready s name || any_success events name)
unfolding run
is_ready-run [] s name = ground arith
is_ready-run (ev ∷ events) s name =
    ground (arith, is_ready-run events (step ev s) name, is_ready-step ev s name)

entries-record_result :
    (f : Option Failure) (stopping : Bool) (c : String) (unix : ℤ) (s : Scheduler)
    → (record_result f stopping c unix s).entries ≡ s.entries
unfolding record_result
entries-record_result none stopping c unix s = refl
entries-record_result (some (panic_error v)) stopping c unix s = refl
entries-record_result (some (failure e)) true c unix s = refl
entries-record_result (some (failure e)) false c unix s = refl

pub entries-run : (events : List Event) (s : Scheduler) → (run events s).entries ≡ s.entries
unfolding run refresh
entries-run [] s = refl
entries-run (ev ∷ events) s =
    entries-run events (step ev s)
    ∙ entries-record_result _ ev.at.stopping (name_of ev) ev.at.unix _

-- What is pending after any refreshes is, in the order of registration, what was pending before and
-- has not succeeded since: a collector never becomes pending again.
pub pending-run :
    (events : List Event) (s : Scheduler)
    → pending (run events s) ≡ keep (λ name. not (any_success events name)) (pending s)
unfolding pending names
pending-run events s =
    ap
      (λ (entries : List Entry).
        keep (λ name. not (is_ready (run events s) name))
          (map (λ (e : Entry). e.collector.name) entries))
      (entries-run events s)
    ∙ keep_congr _ _ (names s) (λ name. ground (arith, is_ready-run events s name))
    ∙ sym (
        keep-keep (λ name. not (any_success events name)) (λ name. not (is_ready s name)) (names s))
