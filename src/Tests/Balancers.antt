-- ===== src/Tests/Balancers.antt =====
-- Two load balancers: one run of two workers, and one reading with an extended metric that fails.
use digitalocean_exporter.Base.{
  ℕ, is, ◌<◌, ◌≡◌, ◌&&◌, ◌||◌, not, ◌⊎◌, nat_eq, string_eq, ℤ, pos, true, false, Option, none, some,
  List, [], ◌∷◌, Result, ok, err, refl, arith, length, GoError, sentinel, opaque, deadline_exceeded,
  ltb,
}
use digitalocean_exporter.Timeseries.{Model, MetricsResponse, latest}
use digitalocean_exporter.Fanout.{Reference, Reading, measured, measure_all, starved}
use digitalocean_exporter.Fanout.Queue.{
  State, starting, store, Step, hand_out, finish, context_done, Runs, stay, then_step,
  then_canceled, IsOver, outcome,
}
use digitalocean_exporter.Fanout.Queue.Interleaving.{weight, Runs-outcome, Step-progress}
use digitalocean_exporter.LoadBalancerMetrics.{
  Endpoint, get_droplets_queue_size, Point, specs, extended_specs, read, measure, measure_base,
  measure_extended, contain, add_samples,
}
use digitalocean_exporter.Fanout.Refresh.{ref_of}
use digitalocean_exporter.LoadBalancerMetrics.Measured.{
  all_reported, is_ok, tolerated, every, measure-points, measure-success,
}

abbrev model : Model ℕ ℕ
model = record { is_nan = λ v. false; after = λ a b. ltb b a }

abbrev unix : ℕ → ℤ
unix n = pos n

abbrev answered : MetricsResponse ℕ ℕ
answered = record { status = "success"; result = [] }

-- The queue size is what the API does not answer.
abbrev answer : Endpoint → Reference → Result (Option (MetricsResponse ℕ ℕ))
answer get_droplets_queue_size ref = err (opaque "500")
answer _ ref = ok (some answered)

abbrev balancer : Reference
balancer = record { id = "a"; name = "edge" }

abbrev pair : List Reference
pair = balancer ∷ record { id = "b"; name = "inner" } ∷ []

abbrev gauge : Reference → Result (Reading (Point ℕ))
gauge = measure model unix answer true

abbrev reading : Reading (Point ℕ)
reading = record { id = "a"; name = "edge"; up = 1; sampled = pos 0; points = [] }

gauge_computed : gauge balancer ≡ ok reading
unfolding measure measure_base measure_extended contain read latest starved add_samples is
gauge_computed = refl

measure-points_example :
    (ref_of reading ≡ balancer)
    × (reading.up ≡ 1)
    × (reading.points ≡ all_reported model unix answer true balancer)
measure-points_example = measure-points model unix answer true balancer reading gauge_computed

measure-success_example :
    is_ok model unix answer (measure model unix answer true balancer)
    ≡ every model unix answer
        (λ s. is_ok model unix answer (read model unix answer s balancer))
        specs
      && (not true
          || every model unix answer
              (λ s. tolerated model unix answer (read model unix answer s balancer))
              extended_specs)
measure-success_example = measure-success model unix answer true balancer

abbrev late : GoError
late = sentinel deadline_exceeded

abbrev handed_out : State (Point ℕ)
handed_out = record starting { next = 1; busy = 0 ∷ [] }

abbrev stopped : State (Point ℕ)
stopped = record handed_out { is_canceled = true; is_open = false }

abbrev over : State (Point ℕ)
over = record stopped { busy = []; results = store 0 (measured gauge balancer) stopped.results }

-- The first is measured while the context ends.
one_measured : Runs gauge 2 pair starting over
one_measured =
    then_step
      (then_step (then_canceled (then_step stay (hand_out refl (omega arith) (omega arith))))
        (context_done refl refl (omega arith)))
      (finish [] [] 0 balancer refl refl)

Runs-outcome_example :
    (outcome gauge 2 pair late over ≡ measure_all gauge (some (1, late)) pair)
    × (over.next ≡ length pair → outcome gauge 2 pair late over ≡ measure_all gauge none pair)
Runs-outcome_example = Runs-outcome gauge 2 pair late one_measured (refl, refl)

-- The first is handed out, and the context is not done.
one_busy : Runs gauge 2 pair starting handed_out
one_busy = then_step stay (hand_out refl (omega arith) (omega arith))

Step-progress_example :
    (IsOver gauge 2 pair handed_out ⊎ ((t : State (Point ℕ)) × Step gauge 2 pair handed_out t))
    × ((t : State (Point ℕ))
        → Step gauge 2 pair handed_out t
        → weight gauge 2 pair t < weight gauge 2 pair handed_out)
Step-progress_example = Step-progress gauge 2 pair (omega arith) one_busy
