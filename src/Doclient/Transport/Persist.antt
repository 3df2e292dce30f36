-- ===== src/Doclient/Transport/Persist.antt =====
-- A failure that stays is met with the whole attempt budget.
use digitalocean_exporter.Base.{
  ℕ, zero, suc, ◌+◌, ◌-◌, ◌<◌, true, false, none, some, Result, ok, err, ℤ, List, ◌++◌, ◌≡◌, ap,
  ◌∙◌, arith, length, length-append,
}
use digitalocean_exporter.Doclient.Backoff.{Response, next_wait}
use digitalocean_exporter.Doclient.Transport.{
  Request, Metrics, State, Env, Transport, fits, sleep, discard, observe, send_authed, paced,
  attempt, trip, attempts, round_trip, authed,
}
use digitalocean_exporter.Doclient.Transport.Attempts.{Logs, copies, round_trip-Counted}

module _ {W F : Type 0} (env : Env W F) (t : Transport) (req : Request) where
  -- How often a request was counted.
  abbrev pub counted : State W F → ℕ
  counted s = length s.metrics.requests

  counted-observe :
      (start : ℤ) (answer : Result Response) (w : W) (m : Metrics F)
      → length (observe env t req start answer w m).requests ≡ length m.requests + 1
  unfolding observe
  counted-observe start (ok r) w m = length-append m.requests _
  counted-observe start (err e) w m = length-append m.requests _

  counted-send_authed : (s : State W F) → counted (send_authed env t req s).1 ≡ counted s + 1
  unfolding send_authed
  counted-send_authed s = counted-observe (env.now s.world) _ _ s.metrics

  -- The API keeps answering with what is worth another attempt, no deadline and no limiter stands in
  -- the way, and no timer is cut short.
  pub record KeepsFailing : Type 0 where
    pub endless : req.context.deadline ≡ none
    pub free : t.limited ≡ false
    pub timers : (d : ℤ) (w : W) → (env.timer req.context d w).0 ≡ none
    pub failing :
        (s : State W F) (n : ℕ)
        → (wait : ℤ) × (next_wait
              (env.readers (attempt env t req s).1.world)
              (attempt env t req s).0
              n
            ≡ some wait)

  module _ (k : KeepsFailing) where
    counted-attempt : (s : State W F) → counted (attempt env t req s).1 ≡ counted s + 1
    unfolding attempt paced
    counted-attempt s = ground (arith, k.free, counted-send_authed s)

    fits_endless : (wait : ℤ) (w : W) → fits env req.context wait w ≡ true
    unfolding fits
    fits_endless wait w = ground (arith, k.endless)

    sleep_whole : (wait : ℤ) (w : W) → (sleep env req.context wait w).0 ≡ none
    unfolding sleep
    sleep_whole wait w = ground (arith, k.timers wait w)

    counted-trip :
        (left n : ℕ) (s : State W F) → counted (trip env t left n req s).1 ≡ counted s + suc left
    unfolding trip
    counted-trip zero n s = counted-attempt s
    counted-trip (suc left) n s =
        let s' = (attempt env t req s).1 in
        let (wait, e) = k.failing s n in
        let v = discard env t (attempt env t req s).0 s'.world in
        rw (trip, e)
          (rw (fits_endless wait s'.world, sleep_whole wait v)
            (omega (
              arith,
              counted-attempt s,
              counted-trip left (n + 1) (record s' { world = (sleep env req.context wait v).1 }),
            )))

    counted-round_trip :
        (s : State W F)
        → req.body ≡ false
        → 0 < t.max_attempts
        → counted (round_trip env t req s).1 ≡ counted s + t.max_attempts
    unfolding round_trip
    counted-round_trip s b h =
        let e : attempts env t req ≡ t.max_attempts = ground arith in
        omega (arith, counted-trip (attempts env t req - 1) 1 s, e)

    -- While every answer is worth another attempt, with no deadline, no limiter and no timer cut short, a
    -- request without a body is sent with the token exactly as often as the budget says, the first attempt
    -- included, and is counted each time.
    pub round_trip_whole :
        (log : W → List Request) (s : State W F)
        → Logs env log
        → req.body ≡ false
        → 0 < t.max_attempts
        → (log (round_trip env t req s).1.world
            ≡ log s.world ++ copies t.max_attempts (authed env t req))
          × (counted (round_trip env t req s).1 ≡ counted s + t.max_attempts)
    round_trip_whole log s logs b h =
        let grown = counted-round_trip s b h in
        let (new, e, l, n, g) = round_trip-Counted env t req log logs s h in
        let many : length new ≡ t.max_attempts =
          omega (arith, grown, ap length e, length-append s.metrics.requests new) in
        (g ∙ ap (λ k. log s.world ++ copies k (authed env t req)) many, grown)
