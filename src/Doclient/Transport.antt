-- ===== src/Doclient/Transport.antt =====
-- `transport` of internal/doclient/client.go: one attempt, and the round trip that retries it.
--
-- The rate limiter, the HTTP transport below this one, the clock and the timers act on the world and
-- are the parameter `Env`. The metrics are part of the state: a counter is the list of the label
-- values that it was raised under, in order. A response's body is in the world too, since the code
-- only reads it out and closes it.
pub mod Attempts
pub mod Limiter
pub mod Persist
use Prim.Native.String.{◌++◌ as str_append}
use digitalocean_exporter.Base.{
  ℕ, zero, suc, ◌+◌, ◌-◌, String, string_eq, Bool, true, false, Option, none, some, List, [], ◌∷◌,
  ◌++◌, GoError, sentinel, deadline_exceeded, wrap, join, Result, ok, err, ℤ, pos, negsuc, eqb,
  if◌then◌else◌,
}
use digitalocean_exporter.Base.Int.{ltb_ℤ, ◌+ℤ◌, positive, sub_ℕ, pos_part, neg_part}
use digitalocean_exporter.Base.Assoc.{Assoc, insert}
use digitalocean_exporter.Doclient.Context.{Context, collector_name}
use digitalocean_exporter.Doclient.Resource.{resource}
use digitalocean_exporter.Doclient.Backoff.{
  Header, Response, Readers, next_wait, default_max_attempts,
}

pub record Request : Type 0 where
  pub context : Context
  pub path : String
  -- `req.Body != nil`
  pub body : Bool
  pub headers : Assoc String String

-- The status label of a counted request: "error", or the status in decimal.
pub data Status : Type 0 where
  failed : Status
  code : ℕ → Status

pub record Metrics (F : Type 0) : Type 0 where
  pub requests : List (String × String × Status)
  pub duration : List (String × String × ℤ)
  pub remaining : F
  pub limit : F
  pub reset : F

pub record State (W F : Type 0) : Type 0 where
  pub world : W
  pub metrics : Metrics F

pub record Env (W F : Type 0) : Type 0 where
  -- `limiter.Wait`
  pub wait : Context → W → Option GoError × W
  -- `base.RoundTrip`
  pub send : Request → W → Result Response × W
  -- `ctx.Err()`
  pub ctx_err : Context → W → Option GoError
  -- the `select` of `sleep`: the context's error if that is done first
  pub timer : Context → ℤ → W → Option GoError × W
  -- `drain`
  pub drain : Response → W → W
  pub now : W → ℤ
  pub readers : W → Readers F

pub record Transport : Type 0 where
  pub token : String
  -- whether there is a limiter
  pub limited : Bool
  pub max_attempts : ℕ

-- The retry budget that `New` sets; zero, and a negative value, mean the default.
unfoldable pub budget : ℤ → ℕ
budget max_attempts = if positive max_attempts then pos_part max_attempts else default_max_attempts

abbrev pub minus : ℤ → ℤ → ℤ
minus a b = sub_ℕ (pos_part a + neg_part b) (neg_part a + pos_part b)

module _ {F : Type 0} (read : Readers F) (header : Header) where
  -- `setFromHeader`
  unfoldable pub set_from_header : F → String → F
  set_from_header gauge name = elim (read.parse_float (header name)) [
    | none ↦ gauge
    | some value ↦ value
  ]

  -- `observeRateLimit`
  unfoldable pub observe_rate_limit : Metrics F → Metrics F
  unfolding set_from_header
  observe_rate_limit m = record m {
    remaining = set_from_header m.remaining "RateLimit-Remaining";
    limit = set_from_header m.limit "RateLimit-Limit";
    reset = set_from_header m.reset "RateLimit-Reset";
  }

-- The cases of `limiterError`: the context's error, its deadline, and the limiter's error.
unfoldable pub translate : Option GoError → Option ℤ → GoError → GoError
translate (some ctx_err) deadline e = ctx_err
translate none (some _) e = join (sentinel deadline_exceeded) e
translate none none e = e

module _ {W F : Type 0} (env : Env W F) where
  -- `limiterError`
  unfoldable pub limiter_error : Context → GoError → W → GoError
  unfolding translate
  limiter_error ctx e w = translate (env.ctx_err ctx w) ctx.deadline e

  -- `fits`; a time.Time reaches much further than a duration, and is kept as an exact number of nanoseconds.
  unfoldable pub fits : Context → ℤ → W → Bool
  fits ctx d w = elim ctx.deadline [ none ↦ true | some deadline ↦ ltb_ℤ (env.now w +ℤ d) deadline ]

  -- `sleep`
  unfoldable pub sleep : Context → ℤ → W → Option GoError × W
  sleep ctx d w = if positive d then env.timer ctx d w else (none, w)

  module _ (t : Transport) where
    -- The clone of the request with the token.
    unfoldable pub authed : Request → Request
    authed req = record req {
      headers = insert "Authorization" (str_append "Bearer " t.token) req.headers;
    }

    -- The counters after an answer.
    unfoldable pub observe : Request → ℤ → Result Response → W → Metrics F → Metrics F
    unfolding observe_rate_limit
    observe req start answer w m =
        let name = collector_name req.context in
        let res = resource req.path in
        let timed = record m {
          duration = m.duration ++ (name, res, minus (env.now w) start) ∷ [];
        } in
        elim answer [
          | err _ ↦ record timed { requests = m.requests ++ (name, res, failed) ∷ [] }
          | ok resp ↦
              observe_rate_limit (env.readers w) resp.header
                (record timed { requests = m.requests ++ (name, res, code resp.status) ∷ [] })
        ]

    -- `attempt`, once the limiter lets it through.
    unfoldable pub send_authed : Request → State W F → Result Response × State W F
    unfolding authed observe
    send_authed req s =
        let start = env.now s.world in
        let (answer, w) = env.send (authed req) s.world in
        (answer, record { world = w; metrics = observe req start answer w s.metrics })

    -- The request behind the limiter's answer.
    unfoldable pub admit : Option GoError → Request → State W F → Result Response × State W F
    unfolding limiter_error send_authed
    admit (some e) req s =
        (err (wrap "wait for the API rate limiter" (limiter_error req.context e s.world)), s)
    admit none req s = send_authed req s

    -- The first argument is `t.limiter != nil`.
    unfoldable pub paced : Bool → Request → State W F → Result Response × State W F
    unfolding admit
    paced false req s = send_authed req s
    paced true req s =
        let (refused, w) = env.wait req.context s.world in
        admit refused req (record s { world = w })

    unfoldable pub attempt : Request → State W F → Result Response × State W F
    unfolding paced
    attempt req s = paced t.limited req s

    -- `if resp != nil { drain(resp) }`
    unfoldable pub discard : Result Response → W → W
    discard (err _) w = w
    discard (ok resp) w = env.drain resp w

    -- The loop of `RoundTrip` at attempt number `n`, with `left` attempts to go after this one.
    unfoldable pub trip : ℕ → ℕ → Request → State W F → Result Response × State W F
    unfolding attempt fits sleep discard
    trip zero n req s = attempt req s
    trip (suc left) n req s =
        let (answer, s') = attempt req s in
        elim (next_wait (env.readers s'.world) answer n) [
          | none ↦ (answer, s')
          | some wait ↦
              let (interrupted, w) = sleep req.context wait (discard answer s'.world) in
              let again = trip left (n + 1) req (record s' { world = w }) in
              if fits req.context wait s'.world
              then (elim interrupted [ some e ↦ (err e, record s' { world = w }) | none ↦ again ])
              else (answer, s')
        ]

    abbrev pub attempts : Request → ℕ
    attempts req = if req.body then 1 else t.max_attempts

    -- `RoundTrip`
    unfoldable pub round_trip : Request → State W F → Result Response × State W F
    unfolding trip
    round_trip req s = trip (attempts req - 1) 1 req s
