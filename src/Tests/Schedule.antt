-- ===== src/Tests/Schedule.antt =====
-- A scheduler with two collectors, one of which fails, and the readiness probe.
use digitalocean_exporter.Base.{
  string_eq, false, ◌||◌, none, some, List, [], ◌∷◌, pos, ◌≡◌, ◌↔◌, opaque,
}
use digitalocean_exporter.Scheduler.{
  Collector, Entry, Scheduler, returned, Moment, Event, pending, is_ready, run,
}
use digitalocean_exporter.Scheduler.Ready.{any_success, is_ready-run}
use digitalocean_exporter.Scheduler.Health.{health, own, health-run-own}
use digitalocean_exporter.Main.{handle_readyz}
use digitalocean_exporter.Main.Probes.{AllPass, handle_readyz-run}

abbrev good : Collector
good = record { name = "account"; refresh = λ ctx. returned none }

abbrev bad : Collector
bad = record { name = "balance"; refresh = λ ctx. returned (some (opaque "403")) }

abbrev good_entry : Entry
good_entry = record { collector = good; interval = pos 300; timeout = pos 30 }

abbrev bad_entry : Entry
bad_entry = record { collector = bad; interval = pos 600; timeout = pos 30 }

abbrev both : List Entry
both = good_entry ∷ bad_entry ∷ []

abbrev scheduler : Scheduler
scheduler = record {
  timeout = pos 30;
  entries = both;
  success = [];
  duration = [];
  last_ok = [];
  ready = [];
}

abbrev now : Moment
now = record {
  run_ctx = record { deadline = none; collector = none };
  stopping = false;
  start = pos 0;
  elapsed = pos 2;
  unix = pos 1700000000;
}

abbrev events : List Event
events = record { entry = bad_entry; at = now } ∷ record { entry = good_entry; at = now } ∷ []

is_ready-run_example :
    is_ready (run events scheduler) "account"
    ≡ (is_ready scheduler "account" || any_success events "account")
is_ready-run_example = is_ready-run events scheduler "account"

health-run-own_example :
    health (run events scheduler) "account"
    ≡ health (run (own "account" events) scheduler) "account"
health-run-own_example = health-run-own events scheduler "account"

handle_readyz-run_example :
    ((handle_readyz (run events scheduler)).status ≡ 200)
    ↔ AllPass (any_success events) (pending scheduler)
handle_readyz-run_example = handle_readyz-run events scheduler
