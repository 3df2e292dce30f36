-- ===== src/Tests/Client.antt =====
-- The HTTP client on one request, against an API that always answers with 503, and against a limiter
-- that refuses.
use digitalocean_exporter.Base.{
  ℕ, suc, ◌+◌, List, ◌∷◌, ◌++◌, ◌*◌, ◌≤◌, String, true, false, none, some, [], ok, err, pos, ◌≡◌,
  ◌≢◌, ◌↔◌, ◌⊎◌, refl, inl, arith, GoError, ne_of_beq, string_eq, sentinel, deadline_exceeded,
}
use digitalocean_exporter.Doclient.Backoff.{
  Header, Response, Readers, atoi, fallback_backoff, retryable, budget_spent, retry_after,
  retry_delay, next_wait, second,
}
use digitalocean_exporter.Doclient.Backoff.Laws.{
  fallback_backoff_overflow, retryable_iff, retry_after_seconds, retry_after_overflow, Waits,
  next_wait-Waits,
}
use digitalocean_exporter.Doclient.Transport.{
  Request, State, Env, Transport, attempt, paced, admit, send_authed, attempts, round_trip, authed,
}
use digitalocean_exporter.Doclient.Transport.Attempts.{
  Counted, Logs, copies, round_trip-Counted, round_trip_once,
}
use digitalocean_exporter.Doclient.Transport.Persist.{KeepsFailing, counted, round_trip_whole}
use digitalocean_exporter.Doclient.Transport.Limiter.{IsDone, ContextErrors, round_trip_refused}

abbrev readers : Readers ℕ
readers = record { parse_float = λ s. some 0; le_zero = λ n. true; until_date = λ s. none }

abbrev no_header : Header
no_header = λ name. ""

abbrev unavailable : Response
unavailable = record { status = 503; header = no_header }

abbrev failing_env : Env ℕ ℕ
failing_env = record {
  wait = λ ctx w. (none, w);
  send = λ req w. (ok unavailable, suc w);
  ctx_err = λ ctx w. none;
  timer = λ ctx d w. (none, w);
  drain = λ resp w. w;
  now = λ w. pos 0;
  readers = λ w. readers;
}

abbrev refusing_env : Env ℕ ℕ
refusing_env = record failing_env { wait = λ ctx w. (some (sentinel deadline_exceeded), suc w) }

abbrev three : Transport
three = record { token = "secret"; limited = false; max_attempts = 3 }

abbrev limited : Transport
limited = record three { limited = true }

abbrev request : Request
request = record {
  context = record { deadline = none; collector = some "droplets" };
  path = "/v2/droplets/17";
  body = false;
  headers = [];
}

abbrev timed_request : Request
timed_request = record request { context = record { deadline = some (pos 7); collector = none } }

abbrev posting : Request
posting = record request { body = true }

abbrev fresh : State ℕ ℕ
fresh = record {
  world = 0;
  metrics = record { requests = []; duration = []; remaining = 0; limit = 0; reset = 0 };
}

-- An API that answers with 503 and keeps what it was sent.
abbrev logging_env : Env (List Request) ℕ
logging_env = record {
  wait = λ ctx w. (none, w);
  send = λ req w. (ok unavailable, w ++ req ∷ []);
  ctx_err = λ ctx w. none;
  timer = λ ctx d w. (none, w);
  drain = λ resp w. w;
  now = λ w. pos 0;
  readers = λ w. readers;
}

abbrev all_sent : List Request → List Request
all_sent w = w

logging-Logs : Logs logging_env all_sent
logging-Logs = record {
  sends = λ r w. refl;
  waits = λ ctx w. refl;
  timers = λ ctx d w. refl;
  drains = λ r w. refl;
}

logging-KeepsFailing : KeepsFailing logging_env three request
unfolding next_wait retry_delay retryable retry_after budget_spent attempt paced admit send_authed
logging-KeepsFailing = record {
  endless = refl;
  free = refl;
  timers = λ d w. refl;
  failing = λ s n. (fallback_backoff n, refl);
}

abbrev unsent : State (List Request) ℕ
unsent = record {
  world = [];
  metrics = record { requests = []; duration = []; remaining = 0; limit = 0; reset = 0 };
}

round_trip-Counted_example :
    Counted logging_env three request all_sent
      (attempts logging_env three request)
      unsent
      (round_trip logging_env three request unsent).1
round_trip-Counted_example =
    round_trip-Counted logging_env three request all_sent logging-Logs unsent (omega arith)

round_trip_whole_example :
    (all_sent (round_trip logging_env three request unsent).1.world
      ≡ [] ++ copies 3 (authed logging_env three request))
    × (counted logging_env three request (round_trip logging_env three request unsent).1 ≡ 0 + 3)
round_trip_whole_example =
    round_trip_whole logging_env three request logging-KeepsFailing all_sent unsent logging-Logs
      refl (omega arith)

round_trip_once_example :
    round_trip failing_env three posting fresh ≡ attempt failing_env three posting fresh
round_trip_once_example = round_trip_once failing_env three posting fresh (inl refl)

refusing-ContextErrors : ContextErrors refusing_env limited timed_request
refusing-ContextErrors = λ w x e. cc

has_deadline : timed_request.context.deadline ≢ none
has_deadline = λ e. cc

round_trip_refused_example :
    (x : GoError) × (round_trip refusing_env limited timed_request fresh
      ≡ (err x, record fresh { world = 1 }))
    × IsDone x
round_trip_refused_example =
    round_trip_refused refusing_env limited timed_request fresh (sentinel deadline_exceeded)
      refusing-ContextErrors refl has_deadline refl

next_wait-Waits_example :
    (next_wait readers (ok unavailable) 1 ≡ some (fallback_backoff 1))
    ↔ Waits readers (ok unavailable) 1 (fallback_backoff 1)
next_wait-Waits_example = next_wait-Waits readers (ok unavailable) 1 (fallback_backoff 1)

abbrev too_many : Response
too_many = record { status = 429; header = no_header }

no_retry_after : retry_after readers "" ≡ none
unfolding retry_after
no_retry_after = refl

spent : budget_spent readers no_header ≡ true
unfolding budget_spent
spent = refl

fallback_backoff_overflow_example : fallback_backoff 56 ≡ pos 0
fallback_backoff_overflow_example = fallback_backoff_overflow 0

abbrev unimplemented : ℕ
unimplemented = 501

retryable_iff_example :
    (retryable unimplemented ≡ true)
    ↔ ((unimplemented ≡ 429) ⊎ ((500 ≤ unimplemented) × (unimplemented ≢ 501)))
retryable_iff_example = retryable_iff unimplemented

atoi_sixty : atoi "60" ≡ some (pos 60)
unfolding atoi
atoi_sixty = refl

retry_after_seconds_example : retry_after readers "60" ≡ some (pos (60 * second))
retry_after_seconds_example = retry_after_seconds readers "60" 60 atoi_sixty (omega arith)

atoi_long : atoi "9999999999" ≡ some (pos 9999999999)
unfolding atoi
atoi_long = refl

retry_after_overflow_example : retry_after readers "9999999999" ≡ some (pos 0)
retry_after_overflow_example =
    retry_after_overflow readers "9999999999" 9999999999 atoi_long (omega arith) (omega arith)

abbrev segment : String
segment = "droplets"

segment_named : segment ≢ ""
segment_named = ne_of_beq segment "" refl
