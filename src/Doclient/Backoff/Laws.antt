-- ===== src/Doclient/Backoff/Laws.antt =====
-- How long the waits are, and what is never retried.
use native.Mathlib.Nat.{pow-suc}
use digitalocean_exporter.Base.{
  ℕ, zero, suc, ◌+◌, ◌-◌, ◌*◌, ◌^◌, ◌%◌, ◌≤◌, ◌<◌, String, string_eq, Bool, true, false, ◌&&◌, none,
  some, Result, ok, err, ℤ, pos, negsuc, leb, eqb, ◌==◌, ◌≡◌, ◌≢◌, ◌⊎◌, ◌↔◌, Bool-cases,
  Option-cases, some_inj, sym, ◌∙◌, ne_of_beq, inl, inr, refl, ap, arith, if◌then◌else◌, is,
  canceled, deadline_exceeded,
}
use digitalocean_exporter.Base.Int.{◌≤ℤ◌, wrap64, max_ℤ}
use digitalocean_exporter.Doclient.Backoff.{
  Header, Response, Readers, atoi, fallback_backoff, retryable, retryable_error, budget_spent,
  retry_after, retry_delay, next_wait, times_second, second, base_backoff, max_backoff,
}

-- Every value below a bound, by evaluation.
passes_until : (ℕ → Bool) → ℕ → Bool
passes_until test zero = true
passes_until test (suc bound) = let rest = passes_until test bound in test bound && rest

passes_until_lem :
    (test : ℕ → Bool) (bound k : ℕ) → k < bound → passes_until test bound ≡ true → test k ≡ true
unfolding passes_until
passes_until_lem test zero k below all = absurd (omega arith)
passes_until_lem test (suc bound) k below all = ground (arith, passes_until_lem test bound k)

-- The doubled wait in nanoseconds, with no wrap-around, capped.
abbrev pub doubled : ℕ → ℕ
doubled attempt =
    let wait = base_backoff * 2 ^ (attempt - 1) in
    if leb wait max_backoff then wait else max_backoff

abbrev is_pos : ℤ → ℕ → Bool
is_pos (pos n) m = eqb n m
is_pos (negsuc n) m = false

is_pos_eq : (z : ℤ) (m : ℕ) → is_pos z m ≡ true → z ≡ pos m
is_pos_eq (pos n) m h = ground arith
is_pos_eq (negsuc n) m h = cc

doubled_table : passes_until (λ k. is_pos (fallback_backoff (suc k)) (doubled (suc k))) 34 ≡ true
unfolding passes_until fallback_backoff
doubled_table = refl

-- Up to the thirty-fourth attempt the fallback wait is one second doubled for each attempt before,
-- capped at ten seconds, with no wrap-around on the way.
pub fallback_backoff_lem : (k : ℕ) → k < 34 → fallback_backoff (suc k) ≡ pos (doubled (suc k))
fallback_backoff_lem k h = is_pos_eq _ _ (
    passes_until_lem (λ j. is_pos (fallback_backoff (suc j)) (doubled (suc j))) 34 k h
      doubled_table)

pow_add : (a b : ℕ) → 2 ^ (a + b) ≡ 2 ^ b * 2 ^ a
pow_add zero b = let e : 0 + b ≡ b = omega arith in rw e (omega arith)
pow_add (suc a) b =
    let e : suc a + b ≡ suc (a + b) = omega arith in
    rw e (grind (arith, pow-suc 2 (a + b), pow-suc 2 a, pow_add a b))

shifted_out : (k : ℕ) → base_backoff * 2 ^ (56 + k - 1) % 18446744073709551616 ≡ 0
shifted_out k = let e : 56 + k - 1 ≡ 55 + k = omega arith in rw e (omega (arith, pow_add 55 k))

-- From the fifty-sixth attempt on, the shift has pushed every bit out of the 64, and the wait is zero.
pub fallback_backoff_overflow : (k : ℕ) → fallback_backoff (56 + k) ≡ pos 0
unfolding fallback_backoff
fallback_backoff_overflow k = rw (shifted_out k)

-- A status is retried exactly when it is 429, or a server failure other than 501.
pub retryable_iff :
    (status : ℕ) → (retryable status ≡ true) ↔ ((status ≡ 429) ⊎ ((500 ≤ status) × (status ≢ 501)))
unfolding retryable
retryable_iff status = (λ h. ground arith, λ h. ground arith)

atoi_empty : atoi "" ≡ none
unfolding atoi
atoi_empty = refl

number_not_empty : (value : String) (z : ℤ) → atoi value ≡ some z → (value == "") ≡ false
number_not_empty value z a = elim (Bool-cases (value == "")) [
  | inl t ↦ let e : value ≡ "" = (string_eq.beq_iff value "").0 t in cc (e, a, atoi_empty)
  | inr f ↦ f
]

seconds_fit :
    (seconds : ℕ)
    → seconds ≤ 9223372036
    → max_ℤ (times_second (pos seconds)) (pos 0) ≡ pos (seconds * second)
unfolding wrap64
seconds_fit seconds h = ground arith

seconds_overflow :
    (seconds : ℕ)
    → 9223372037 ≤ seconds
    → seconds ≤ 18446744073
    → max_ℤ (times_second (pos seconds)) (pos 0) ≡ pos 0
unfolding wrap64
seconds_overflow seconds h k = ground arith

module _ {F : Type 0} (read : Readers F) where
  -- A Retry-After that is a number of seconds is honoured in full, as long as that many seconds fit
  -- into a duration. A negative one means now.
  pub retry_after_seconds :
      (value : String) (seconds : ℕ)
      → atoi value ≡ some (pos seconds)
      → seconds ≤ 9223372036
      → retry_after read value ≡ some (pos (seconds * second))
  unfolding retry_after
  retry_after_seconds value seconds a h =
      rw (number_not_empty value _ a, a) (ap some (seconds_fit seconds h))

  -- A Retry-After of 9223372037 to 18446744073 seconds, more than a duration holds, is no wait at all.
  pub retry_after_overflow :
      (value : String) (seconds : ℕ)
      → atoi value ≡ some (pos seconds)
      → 9223372037 ≤ seconds
      → seconds ≤ 18446744073
      → retry_after read value ≡ some (pos 0)
  unfolding retry_after
  retry_after_overflow value seconds a h k =
      rw (number_not_empty value _ a, a) (ap some (seconds_overflow seconds h k))

  -- No header asks for a negative wait.
  pub retry_after_nonneg :
      (value : String) (wait : ℤ) → retry_after read value ≡ some wait → pos 0 ≤ℤ wait
  unfolding retry_after
  retry_after_nonneg value wait h = ground arith

  -- The hourly limit is never retried: a 429 that names no moment to come back, with the budget spent.
  pub hourly_limit_stops :
      (resp : Response) (attempt : ℕ)
      → resp.status ≡ 429
      → retry_after read (resp.header "Retry-After") ≡ none
      → budget_spent read resp.header ≡ true
      → next_wait read (ok resp) attempt ≡ none
  unfolding next_wait retry_delay
  hourly_limit_stops resp attempt s r b = ground arith

  some_waits :
      (resp : Response) (attempt : ℕ) (wait : ℤ)
      → next_wait read (ok resp) attempt ≡ some wait
      → (retryable resp.status ≡ true)
        × ((retry_after read (resp.header "Retry-After") ≡ some wait)
            ⊎ ((retry_after read (resp.header "Retry-After") ≡ none)
                × (wait ≡ fallback_backoff attempt)
                × ((resp.status ≢ 429) ⊎ (budget_spent read resp.header ≡ false))))
  unfolding next_wait retry_delay
  some_waits resp attempt wait h = (ground arith, ground arith)

  -- What a Retry-After header asks for: a number of seconds, as a duration, or the time until a date, and no
  -- less than nothing.
  abbrev pub IsNamed : String → ℤ → Type 0
  IsNamed value wait =
      (value ≢ "")
      × (((n : ℤ) × (atoi value ≡ some n) × (wait ≡ max_ℤ (times_second n) (pos 0)))
          ⊎ ((atoi value ≡ none)
              × ((u : ℤ) × (read.until_date value ≡ some u) × (wait ≡ max_ℤ u (pos 0)))))

  -- A header that is not there, or that is neither a number nor a date.
  abbrev pub IsUnnamed : String → Type 0
  IsUnnamed value = (value ≡ "") ⊎ ((atoi value ≡ none) × (read.until_date value ≡ none))

  -- No header says that the hourly budget is used up.
  abbrev pub HasBudget : Header → Type 0
  HasBudget header =
      (left : F)
      → read.parse_float (header "RateLimit-Remaining") ≡ some left
      → read.le_zero left ≡ false

  -- The answers that are worth another attempt, with the wait before it.
  abbrev pub Waits : Result Response → ℕ → ℤ → Type 0
  Waits (err e) attempt wait =
      (is e canceled ≡ false) × (is e deadline_exceeded ≡ false) × (wait ≡ fallback_backoff attempt)
  Waits (ok resp) attempt wait =
      ((resp.status ≡ 429) ⊎ ((500 ≤ resp.status) × (resp.status ≢ 501)))
      × (IsNamed (resp.header "Retry-After") wait
          ⊎ (IsUnnamed (resp.header "Retry-After")
              × (wait ≡ fallback_backoff attempt)
              × ((resp.status ≢ 429) ⊎ HasBudget resp.header)))

  retry_after-IsNamed :
      (value : String) (wait : ℤ) → (retry_after read value ≡ some wait) ↔ IsNamed value wait
  unfolding retry_after
  retry_after-IsNamed value wait = elim (Bool-cases (value == "")) [
    | inl t ↦
        let e : value ≡ "" = (string_eq.beq_iff value "").0 t in
        (λ h. let z : none ≡ some wait = rw t at h in cc, λ h. absurd (h.0 e))
    | inr f ↦
        let n : value ≢ "" = ne_of_beq value "" f in
        elim (Option-cases (atoi value)) [
          | inr (k, a) ↦ (
            λ h. (
              n,
              inl (
                k,
                a,
                let q : some (max_ℤ (times_second k) (pos 0)) ≡ some wait = rw (f, a) at h in
                    sym (some_inj q),
              ),
            ),
            λ h. rw (f, a) (elim h.1 [ inl (j, b, w) ↦ cc | inr (b, (u, d, w)) ↦ cc ]),
          )
          | inl a ↦ elim (Option-cases (read.until_date value)) [
            | inr (u, d) ↦ (
              λ h. (
                n,
                inr (
                  a,
                  (
                    u,
                    d,
                    let q : some (max_ℤ u (pos 0)) ≡ some wait = rw (f, a, d) at h in
                        sym (some_inj q),
                  ),
                ),
              ),
              λ h. rw (f, a, d) (elim h.1 [ inl (j, b, w) ↦ cc | inr (b, (v, e, w)) ↦ cc ]),
            )
            | inl d ↦ (
              λ h. let z : none ≡ some wait = rw (f, a, d) at h in cc,
              λ h. elim h.1 [ inl (j, b, w) ↦ cc | inr (b, (v, e, w)) ↦ cc ],
            )
          ]
        ]
  ]

  retry_after-IsUnnamed : (value : String) → (retry_after read value ≡ none) ↔ IsUnnamed value
  unfolding retry_after
  retry_after-IsUnnamed value = elim (Bool-cases (value == "")) [
    | inl t ↦ let e : value ≡ "" = (string_eq.beq_iff value "").0 t in (λ h. inl e, λ h. rw t refl)
    | inr f ↦
        let n : value ≢ "" = ne_of_beq value "" f in
        elim (Option-cases (atoi value)) [
          | inr (k, a) ↦ (
            λ h. let z : some (max_ℤ (times_second k) (pos 0)) ≡ none = rw (f, a) at h in cc,
            λ h. elim h [ inl e ↦ absurd (n e) | inr (b, d) ↦ cc ],
          )
          | inl a ↦ elim (Option-cases (read.until_date value)) [
            | inr (u, d) ↦ (
              λ h. let z : some (max_ℤ u (pos 0)) ≡ none = rw (f, a, d) at h in cc,
              λ h. elim h [ inl e ↦ absurd (n e) | inr (b, c) ↦ cc ],
            )
            | inl d ↦ (λ h. inr (a, d), λ h. rw (f, a, d) refl)
          ]
        ]
  ]

  budget_left :
      (header : Header) (left : F)
      → read.parse_float (header "RateLimit-Remaining") ≡ some left
      → budget_spent read header ≡ read.le_zero left
  unfolding budget_spent
  budget_left header left n = rw (budget_spent, n) refl

  budget_unsaid :
      (header : Header)
      → read.parse_float (header "RateLimit-Remaining") ≡ none
      → budget_spent read header ≡ false
  unfolding budget_spent
  budget_unsaid header n = rw (budget_spent, n) refl

  budget_spent-HasBudget : (header : Header) → (budget_spent read header ≡ false) ↔ HasBudget header
  budget_spent-HasBudget header =
      elim (Option-cases (read.parse_float (header "RateLimit-Remaining"))) [
        | inl n ↦ ((λ h left e. cc), λ h. budget_unsaid header n)
        | inr (k, n) ↦
            (λ h left e. sym (budget_left header left e) ∙ h, λ h. budget_left header k n ∙ h k n)
      ]

  waits_of :
      (resp : Response) (attempt : ℕ) (wait : ℤ)
      → retryable resp.status ≡ true
      → (retry_after read (resp.header "Retry-After") ≡ some wait)
        ⊎ ((retry_after read (resp.header "Retry-After") ≡ none)
            × (wait ≡ fallback_backoff attempt)
            × ((resp.status ≢ 429) ⊎ (budget_spent read resp.header ≡ false)))
      → next_wait read (ok resp) attempt ≡ some wait
  unfolding next_wait retry_delay
  waits_of resp attempt wait r h = ground arith

  -- An answer is followed by another attempt exactly if it is an error that is no finished context, or a
  -- response with status 429 or a server failure other than 501 that names the wait, or that names none and
  -- is not the hourly limit, a 429 with the budget spent. The wait that a response names is taken as it is;
  -- any other is the fallback.
  pub next_wait-Waits :
      (r : Result Response) (attempt : ℕ) (wait : ℤ)
      → (next_wait read r attempt ≡ some wait) ↔ Waits r attempt wait
  unfolding next_wait retryable_error
  next_wait-Waits (err e) attempt wait =
      (λ h. (ground arith, ground arith, ground arith), λ h. ground arith)
  next_wait-Waits (ok resp) attempt wait =
      let named = retry_after-IsNamed (resp.header "Retry-After") wait in
      let unnamed = retry_after-IsUnnamed (resp.header "Retry-After") in
      let left = budget_spent-HasBudget resp.header in
      (
        λ h.
            let (worth, how) = some_waits resp attempt wait h in
            (
              (retryable_iff resp.status).0 worth,
              elim how [
                | inl n ↦ inl (named.0 n)
                | inr (n, w, b) ↦
                    inr (unnamed.0 n, w, elim b [ inl o ↦ inl o | inr k ↦ inr (left.0 k) ])
              ],
            ),
        λ h. waits_of resp attempt wait ((retryable_iff resp.status).1 h.0) (elim h.1 [
          | inl n ↦ inl (named.1 n)
          | inr (n, w, b) ↦ inr (unnamed.1 n, w, elim b [ inl o ↦ inl o | inr k ↦ inr (left.1 k) ])
        ]),
      )
