-- ===== src/Doclient/Transport/Attempts.antt =====
-- How many requests one round trip makes, under which labels they are counted, and when it stops.
use native.Mathlib.Nat.{zero-add}
use mathlib.Core.List.{append_assoc, append-nil}
use digitalocean_exporter.Base.{
  ℕ, zero, suc, ◌+◌, ◌-◌, ◌≤◌, ◌<◌, String, Bool, true, false, Option, none, some, List, [], ◌∷◌,
  ◌++◌, Result, ok, err, ℤ, ◌≡◌, refl, sym, ap, ◌∙◌, ◌⊎◌, inl, inr, arith, length, length-append,
  GoError, All, All-append, Option-cases, Bool-cases,
}
use digitalocean_exporter.Base.Int.{positive}
use digitalocean_exporter.Doclient.Context.{Context, collector_name}
use digitalocean_exporter.Doclient.Resource.{resource}
use digitalocean_exporter.Doclient.Backoff.{Response, next_wait}
use digitalocean_exporter.Doclient.Transport.{
  Request, Status, State, Env, Transport, authed, fits, sleep, discard, observe, send_authed, admit,
  paced, attempt, trip, attempts, round_trip,
}

abbrev pub Entry : Type 0
Entry = String × String × Status

-- An entry of the request counter that is labelled with the request's collector and resource.
abbrev pub Labelled : Request → Entry → Type 0
Labelled req entry = (entry.0 ≡ collector_name req.context) × (entry.1 ≡ resource req.path)

abbrev pub copies : {A : Type 0} → ℕ → A → List A
copies zero x = []
copies (suc n) x = x ∷ copies n x

copies-add : {A : Type 0} (m n : ℕ) (x : A) → copies (m + n) x ≡ copies m x ++ copies n x
copies-add zero n x = ap (λ k. copies k x) (zero-add n)
copies-add (suc m) n x =
    ap (λ k. copies k x) {y = suc (m + n)} (omega arith) ∙ ap (λ xs. x ∷ xs) (copies-add m n x)

-- A record of what is sent, kept by the world: sending a request adds that request to it, and neither the
-- limiter nor a timer nor reading out a body sends anything.
pub record Logs {W F : Type 0} (env : Env W F) (log : W → List Request) : Type 0 where
  pub sends : (r : Request) (w : W) → log (env.send r w).1 ≡ log w ++ r ∷ []
  pub waits : (ctx : Context) (w : W) → log (env.wait ctx w).1 ≡ log w
  pub timers : (ctx : Context) (d : ℤ) (w : W) → log (env.timer ctx d w).1 ≡ log w
  pub drains : (r : Response) (w : W) → log (env.drain r w) ≡ log w

module _ {W F : Type 0} (env : Env W F) (t : Transport) (req : Request)
    (log : W → List Request) where
  abbrev pub counter : State W F → List Entry
  counter s = s.metrics.requests

  -- Between two states the counter was raised at most `most` times, each time for this request, and exactly
  -- as often the request was sent with the token, and nothing else was.
  abbrev pub Counted : ℕ → State W F → State W F → Type 0
  Counted most s s' =
      (new : List Entry) × (counter s' ≡ counter s ++ new)
      × All (Labelled req) new
      × (length new ≤ most)
      × (log s'.world ≡ log s.world ++ copies (length new) (authed env t req))

  Counted-trans :
      (j k : ℕ) (a b c : State W F) → Counted j a b → Counted k b c → Counted (j + k) a c
  Counted-trans j k a b c (new, e, l, n, g) (new', e', l', n', g') =
      let sent = authed env t req in
      (
        new ++ new',
        e' ∙ ap (λ (x : List Entry). x ++ new') e ∙ append_assoc (counter a) new new',
        All-append (Labelled req) new new' l l',
        omega (arith, length-append new new'),
        g'
            ∙ ap (λ (x : List Request). x ++ copies (length new') sent) g
            ∙ append_assoc (log a.world) (copies (length new) sent) (copies (length new') sent)
            ∙ ap (λ (x : List Request). log a.world ++ x)
                (sym (copies-add (length new) (length new') sent)
                  ∙ ap (λ n. copies n sent) (sym (length-append new new'))),
      )

  Counted-same :
      (k : ℕ) (a b : State W F) → counter b ≡ counter a → log b.world ≡ log a.world → Counted k a b
  Counted-same k a b e g =
      ([], e ∙ sym (append-nil (counter a)), tt, omega arith, g ∙ sym (append-nil (log a.world)))

  Counted-more : (j k : ℕ) (a b : State W F) → j ≤ k → Counted j a b → Counted k a b
  Counted-more j k a b h (new, e, l, n, g) = (new, e, l, omega arith, g)

  module _ (logs : Logs env log) where
    Counted-observe :
        (s : State W F) (start : ℤ) (answer : Result Response) (w : W)
        → log w ≡ log s.world ++ authed env t req ∷ []
        → Counted 1 s (record { world = w; metrics = observe env t req start answer w s.metrics })
    unfolding observe
    Counted-observe s start (ok r) w g = (_ ∷ [], refl, ((refl, refl), tt), omega arith, g)
    Counted-observe s start (err e) w g = (_ ∷ [], refl, ((refl, refl), tt), omega arith, g)

    Counted-send_authed : (s : State W F) → Counted 1 s (send_authed env t req s).1
    unfolding send_authed
    Counted-send_authed s =
        Counted-observe s (env.now s.world) _ _ (logs.sends (authed env t req) s.world)

    Counted-admit :
        (refused : Option GoError) (s : State W F) → Counted 1 s (admit env t refused req s).1
    unfolding admit
    Counted-admit (some x) s = Counted-same 1 s s refl refl
    Counted-admit none s = Counted-send_authed s

    -- What the world did before a step of the code is no request.
    Counted-before :
        (k : ℕ) (s : State W F) (w : W) (c : State W F)
        → log w ≡ log s.world
        → Counted k (record s { world = w }) c
        → Counted k s c
    Counted-before k s w c g (new, e, l, n, h) =
        (new, e, l, n, h ∙ ap (λ (x : List Request). x ++ copies (length new) (authed env t req)) g)

    Counted-paced : (limited : Bool) (s : State W F) → Counted 1 s (paced env t limited req s).1
    unfolding paced
    Counted-paced false s = Counted-send_authed s
    Counted-paced true s =
        let (refused, w) = env.wait req.context s.world in
        Counted-before 1 s w (admit env t refused req (record s { world = w })).1
          (logs.waits req.context s.world) (Counted-admit refused (record s { world = w }))

    Counted-attempt : (s : State W F) → Counted 1 s (attempt env t req s).1
    unfolding attempt
    Counted-attempt s = Counted-paced t.limited s

    discard-log : (answer : Result Response) (w : W) → log (discard env t answer w) ≡ log w
    unfolding discard
    discard-log (err e) w = refl
    discard-log (ok r) w = logs.drains r w

    sleep-log : (d : ℤ) (w : W) → log (sleep env req.context d w).1 ≡ log w
    unfolding sleep
    sleep-log d w = elim (Bool-cases (positive d)) [
      | inl p ↦ rw p (logs.timers req.context d w)
      | inr p ↦ rw p refl
    ]

    Counted-trip : (left n : ℕ) (s : State W F) → Counted (suc left) s (trip env t left n req s).1
    unfolding trip
    Counted-trip zero n s = Counted-attempt s
    Counted-trip (suc left) n s =
        let s' = (attempt env t req s).1 in
        let answer = (attempt env t req s).0 in
        let once = Counted-more 1 (suc (suc left)) s s' (omega arith) (Counted-attempt s) in
        elim (Option-cases (next_wait (env.readers s'.world) answer n)) [
          | inl e ↦ rw (e, trip) once
          | inr (wait, e) ↦ elim (Bool-cases (fits env req.context wait s'.world)) [
            | inr late ↦ rw (e, trip) (rw late once)
            | inl fit ↦
                let drained = discard env t answer s'.world in
                let after = sleep env req.context wait drained in
                let quiet = sleep-log wait drained ∙ discard-log answer s'.world in
                let paused : State W F = record s' { world = after.1 } in
                let late_by = λ (c : State W F) (k : ℕ) (h : Counted k paused c).
                  Counted-more (1 + k) (suc k) s c (omega arith) (
                    Counted-trans 1 k s s' c (Counted-attempt s)
                      (Counted-before k s' after.1 c quiet h)) in
                elim (Option-cases after.0) [
                  | inr (x, i) ↦
                      rw (e, trip)
                        (rw (fit, i)
                          (late_by paused (suc left)
                            (Counted-same (suc left) paused paused refl refl)))
                  | inl i ↦
                      rw (e, trip)
                        (rw (fit, i)
                          (late_by (trip env t left (n + 1) req paused).1 (suc left)
                            (Counted-trip left (n + 1) paused)))
                ]
          ]
        ]

    -- Each time a round trip sends its request, it sends it with the token and counts it once, under the
    -- request's own collector and resource; it counts and sends nothing else, and no more often than the
    -- attempt budget, which is one for a request with a body.
    pub round_trip-Counted :
        (s : State W F)
        → 0 < t.max_attempts
        → Counted (attempts env t req) s (round_trip env t req s).1
    unfolding round_trip
    round_trip-Counted s h =
        Counted-more (suc (attempts env t req - 1)) (attempts env t req) s
          (round_trip env t req s).1 (ground arith) (Counted-trip (attempts env t req - 1) 1 s)

module _ {W F : Type 0} (env : Env W F) (t : Transport) (req : Request) where
  -- The answer to the `n`-th attempt is not worth another one, or the wait before it does not fit.
  abbrev pub IsFinal : ℕ → Result Response → State W F → Type 0
  IsFinal n answer s =
      (next_wait (env.readers s.world) answer n ≡ none)
      ⊎ ((wait : ℤ) × (next_wait (env.readers s.world) answer n ≡ some wait)
          × (fits env req.context wait s.world ≡ false))

  trip-IsFinal :
      (left n : ℕ) (s : State W F)
      → IsFinal n (attempt env t req s).0 (attempt env t req s).1
      → trip env t left n req s ≡ attempt env t req s
  unfolding trip
  trip-IsFinal zero n s h = refl
  trip-IsFinal (suc left) n s h = elim h [
    | inl e ↦ rw (e, trip)
    | inr (wait, e, late) ↦ rw (e, trip) (rw late)
  ]

  -- The first answer is returned as it is, with nothing drained and no wait, if it is final, and so it
  -- is if the request has a body or the budget is one.
  pub round_trip_once :
      (s : State W F)
      → (req.body ≡ true)
        ⊎ (t.max_attempts ≤ 1)
        ⊎ IsFinal 1 (attempt env t req s).0 (attempt env t req s).1
      → round_trip env t req s ≡ attempt env t req s
  unfolding round_trip
  round_trip_once s h = elim h [
    | inl b ↦ let e : attempts env t req - 1 ≡ 0 = ground arith in rw e
    | inr (inl m) ↦ let e : attempts env t req - 1 ≡ 0 = ground arith in rw e
    | inr (inr final) ↦ trip-IsFinal (attempts env t req - 1) 1 s final
  ]
