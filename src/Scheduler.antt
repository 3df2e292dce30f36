-- ===== src/Scheduler.antt =====
-- internal/collector/scheduler.go: the scheduler of the collectors.
--
-- A collector's `Refresh` is a function of its context into an outcome, which an `Event` carries with
-- what the clock says. A gauge vector is an association list from the label to the value, a duration
-- and a timestamp are in nanoseconds and seconds. The goroutines of the collectors run one refresh
-- each at a time, and a refresh writes only under its own label, so the life of a scheduler is a list
-- of events in the order in which their writes end.
pub mod Ready
pub mod Health
pub mod Stagger
use digitalocean_exporter.Base.{
  ℕ, zero, suc, ◌+◌, ◌-◌, ◌*◌, ◌/◌, String, string_eq, Bool, true, false, not, Option, none, some,
  List, [], ◌∷◌, ◌++◌, map, GoError, ℤ, pos, negsuc, leb, keep, length, if◌then◌else◌,
}
use digitalocean_exporter.Base.Int.{positive, min_ℤ, ◌+ℤ◌, sub_ℕ}
use digitalocean_exporter.Base.Assoc.{Assoc, lookup, insert}
use digitalocean_exporter.Doclient.Context.{Context, with_collector}

abbrev pub minute : ℕ
minute = 60000000000

abbrev pub default_interval : ℤ
default_interval = pos (5 * minute)

abbrev pub max_stagger : ℤ
max_stagger = pos 3000000000

-- What one call of `Refresh` does.
pub data Outcome : Type 0 where
  returned : Option GoError → Outcome
  panicked : String → Outcome

-- collector.Collector, of which the scheduler calls `Name` and `Refresh`.
pub record Collector : Type 0 where
  pub name : String
  pub refresh : Context → Outcome

pub record Entry : Type 0 where
  pub collector : Collector
  pub interval : ℤ
  pub timeout : ℤ

pub record Scheduler : Type 0 where
  pub timeout : ℤ
  pub entries : List Entry
  pub success : Assoc String ℕ
  pub duration : Assoc String ℤ
  pub last_ok : Assoc String ℤ
  pub ready : Assoc String Bool

-- `NewScheduler`
unfoldable pub new : ℤ → Scheduler
new timeout = record {
  timeout = timeout;
  entries = [];
  success = [];
  duration = [];
  last_ok = [];
  ready = [];
}

-- `Register`
unfoldable pub register : Collector → ℤ → ℤ → Scheduler → Scheduler
register c interval timeout s =
    let timeout' = if positive timeout then timeout else s.timeout in
    let interval' = if positive interval then interval else default_interval in
    record s {
      entries =
          s.entries ++ record { collector = c; interval = interval'; timeout = timeout' } ∷ [];
    }

-- `s.ready[name]`
unfoldable pub is_ready : Scheduler → String → Bool
is_ready s name = elim (lookup name s.ready) [ none ↦ false | some b ↦ b ]

-- `Names`
unfoldable pub names : Scheduler → List String
names s = map (λ (e : Entry). e.collector.name) s.entries

-- `Pending`
unfoldable pub pending : Scheduler → List String
unfolding names is_ready
pending s = keep (λ name. not (is_ready s name)) (names s)

-- `markReady`
unfoldable pub mark_ready : String → Scheduler → Scheduler
mark_ready name s = record s { ready = insert name true s.ready }

-- The error of `guardedRefresh`.
pub data Failure : Type 0 where
  panic_error : String → Failure
  failure : GoError → Failure

-- `guardedRefresh`
unfoldable pub guarded_refresh : Context → Collector → Option Failure
guarded_refresh ctx c = elim (c.refresh ctx) [
  | panicked value ↦ some (panic_error value)
  | returned none ↦ none
  | returned (some e) ↦ some (failure e)
]

-- What surrounds one refresh: the scheduler's context and whether it is done by the end, the time at
-- which the refresh starts and how long it takes, and the Unix time at its end.
pub record Moment : Type 0 where
  pub run_ctx : Context
  pub stopping : Bool
  pub start : ℤ
  pub elapsed : ℤ
  pub unix : ℤ

-- `context.WithTimeout` sets the earlier of two deadlines.
unfoldable pub with_timeout : Context → ℤ → ℤ → Context
with_timeout ctx now timeout = record ctx {
  deadline = some (elim ctx.deadline [ none ↦ now +ℤ timeout | some d ↦ min_ℤ d (now +ℤ timeout) ]);
}

-- The context under which a collector refreshes.
unfoldable pub refresh_context : Moment → Collector → ℤ → Context
unfolding with_timeout
refresh_context at c timeout = with_timeout (with_collector at.run_ctx c.name) at.start timeout

-- The end of `refresh`, by the error and by `runCtx.Err() != nil`.
unfoldable pub record_result : Option Failure → Bool → String → ℤ → Scheduler → Scheduler
unfolding mark_ready
record_result (some (panic_error _)) stopping name unix s = record s {
  success = insert name 0 s.success;
}
record_result (some (failure _)) true name unix s = s
record_result (some (failure _)) false name unix s = record s { success = insert name 0 s.success }
record_result none stopping name unix s =
    mark_ready name
      (record s { success = insert name 1 s.success; last_ok = insert name unix s.last_ok })

-- `refresh`
unfoldable pub refresh : Moment → Collector → ℤ → Scheduler → Scheduler
unfolding guarded_refresh record_result refresh_context
refresh at c timeout s =
    record_result (guarded_refresh (refresh_context at c timeout) c) at.stopping c.name at.unix
      (record s { duration = insert c.name at.elapsed s.duration })

-- What a `select` of `loop` delivers: the context is done, or the timer or the ticker has fired.
pub data Signal : Type 0 where
  done fired : Signal

-- The `for` of `loop`: how many refreshes the signals give.
unfoldable pub ticks : List Signal → ℕ
ticks [] = 0
ticks (done ∷ signals) = 0
ticks (fired ∷ signals) = suc (ticks signals)

-- `loop`, with the first refresh held back by the offset.
unfoldable pub loop : ℤ → List Signal → ℕ
unfolding ticks
loop offset [] = if positive offset then 0 else 1
loop offset (done ∷ signals) = if positive offset then 0 else 1
loop offset (fired ∷ signals) =
    if positive offset then suc (ticks signals) else suc (suc (ticks signals))

-- `staggerWindow`
unfoldable pub window_from : ℤ → List Entry → ℤ
window_from window [] = window
window_from window (e ∷ entries) = window_from (min_ℤ window e.interval) entries

unfoldable pub stagger_window : List Entry → ℤ
unfolding window_from
stagger_window entries = window_from max_stagger entries

-- `window / time.Duration(count) * time.Duration(index)`; Go's division rounds towards zero.
abbrev pub share : ℤ → ℕ → ℕ → ℤ
share (pos n) count index = pos (n / count * index)
share (negsuc n) count index = sub_ℕ 0 (suc n / count * index)

-- `stagger`
unfoldable pub stagger : ℕ → ℕ → ℤ → ℤ
stagger index count window =
    if leb index 0 then pos 0 else if leb count 1 then pos 0 else share window count index

unfoldable pub offsets_from : ℕ → ℕ → ℤ → List Entry → List ℤ
unfolding stagger
offsets_from index count window [] = []
offsets_from index count window (e ∷ entries) =
    stagger index count window ∷ offsets_from (index + 1) count window entries

-- The offsets that `Run` starts the loops with.
unfoldable pub offsets : List Entry → List ℤ
unfolding stagger_window offsets_from
offsets entries = offsets_from 0 (length entries) (stagger_window entries) entries

-- One refresh of one registered collector.
pub record Event : Type 0 where
  pub entry : Entry
  pub at : Moment

abbrev pub step : Event → Scheduler → Scheduler
step ev s = refresh ev.at ev.entry.collector ev.entry.timeout s

-- The refreshes of all loops, in the order in which they end.
unfoldable pub run : List Event → Scheduler → Scheduler
run [] s = s
run (ev ∷ events) s = run events (step ev s)
