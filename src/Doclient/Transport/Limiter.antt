-- ===== src/Doclient/Transport/Limiter.antt =====
-- What a refused limiter wait does, what is sent, and what the rate-limit gauges hold.
use Prim.Native.String.{◌++◌ as str_append}
use digitalocean_exporter.Base.{
  ℕ, String, string_eq, true, ◌||◌, Option, none, some, err, ℤ, GoError, is, wrap, canceled,
  deadline_exceeded, ◌≡◌, ◌≢◌, refl, ◌∙◌, inl, inr, arith, if◌then◌else◌, ◌==◌,
}
use digitalocean_exporter.Base.Assoc.{lookup, lookup-insert}
use digitalocean_exporter.Doclient.Backoff.{Readers, next_wait, retryable_error}
use digitalocean_exporter.Doclient.Transport.{
  Request, State, Env, Transport, translate, limiter_error, authed, admit, paced, attempt,
  round_trip,
}
use digitalocean_exporter.Doclient.Transport.Attempts.{round_trip_once}

-- The request that is sent carries the token, and every other header as it was; nothing else of it
-- changes.
pub authed_lem :
    {W F : Type 0} (env : Env W F) (t : Transport) (req : Request) (name : String)
    → (lookup name (authed env t req).headers ≡ (
        if "Authorization" == name
        then some (str_append "Bearer " t.token)
        else lookup name req.headers))
      × ((authed env t req).path ≡ req.path)
      × ((authed env t req).context ≡ req.context)
      × ((authed env t req).body ≡ req.body)
unfolding authed
authed_lem env t req name = (lookup-insert "Authorization" name _ req.headers, refl, refl, refl)

-- The error says that the context is done.
abbrev pub IsDone : GoError → Type 0
IsDone x = (is x canceled || is x deadline_exceeded) ≡ true

IsDone-translate :
    (c : Option GoError) (deadline : Option ℤ) (e : GoError)
    → ((x : GoError) → c ≡ some x → IsDone x)
    → deadline ≢ none
    → IsDone (translate c deadline e)
unfolding translate is
IsDone-translate (some x) deadline e h d = h x refl
IsDone-translate none (some at) e h d = ground arith
IsDone-translate none none e h d = absurd (d refl)

next_wait-IsDone :
    {F : Type 0} (read : Readers F) (text : String) (x : GoError) (n : ℕ)
    → IsDone x
    → next_wait read (err (wrap text x)) n ≡ none
unfolding next_wait retryable_error is
next_wait-IsDone read text x n h = ground arith

module _ {W F : Type 0} (env : Env W F) (t : Transport) (req : Request) where
  -- The errors of a context are the two that the standard library documents.
  abbrev pub ContextErrors : Type 0
  ContextErrors = (w : W) (x : GoError) → env.ctx_err req.context w ≡ some x → IsDone x

  attempt_refused :
      (s : State W F) (e : GoError)
      → t.limited ≡ true
      → (env.wait req.context s.world).0 ≡ some e
      → attempt env t req s ≡ (
        err (
            wrap "wait for the API rate limiter"
              (limiter_error env req.context e (env.wait req.context s.world).1)),
        record s { world = (env.wait req.context s.world).1 },
      )
  unfolding attempt paced admit
  attempt_refused s e l r = ground arith

  -- When the limiter refuses a request that has a deadline, nothing is sent and nothing is counted: the
  -- round trip fails at once, with an error that says that the context is done, as the collectors
  -- read a resource that had no turn.
  pub round_trip_refused :
      (s : State W F) (e : GoError)
      → ContextErrors
      → t.limited ≡ true
      → req.context.deadline ≢ none
      → (env.wait req.context s.world).0 ≡ some e
      → (x : GoError) × (round_trip env t req s
          ≡ (err x, record s { world = (env.wait req.context s.world).1 }))
        × IsDone x
  unfolding limiter_error is
  round_trip_refused s e h l d r =
      let w = (env.wait req.context s.world).1 in
      let x = limiter_error env req.context e w in
      let done : IsDone x = IsDone-translate _ _ e (h w) d in
      (
        wrap "wait for the API rate limiter" x,
        round_trip_once env t req s
              (inr (inr (inl (rw (attempt_refused s e l r) (next_wait-IsDone _ _ x 1 done)))))
            ∙ attempt_refused s e l r,
        done,
      )
