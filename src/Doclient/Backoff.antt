-- ===== src/Doclient/Backoff.antt =====
-- The retry policy of internal/doclient/client.go: which answers are worth another attempt, and how
-- long to wait before it. Durations are `int64` nanoseconds, and products wrap as they do in Go.
--
-- A number in a header is a float64 of which the code asks only whether it is at most zero, and an
-- HTTP date is read against the clock: `Readers` has both. `strconv.Atoi` is written out.
pub mod Laws
use Prim.Native.Char.{code}
use digitalocean_exporter.Base.{
  ℕ, ◌+◌, ◌-◌, ◌*◌, ◌^◌, String, string_eq, nat_eq, Bool, true, false, not, ◌&&◌, ◌||◌, Option,
  none, some, GoError, canceled, deadline_exceeded, is, Result, ok, err, ℤ, pos, negsuc, leb, ltb,
  ◌==◌, if◌then◌else◌,
}
use digitalocean_exporter.Base.Int.{pos_part, neg_part, min_ℤ, max_ℤ, wrap64, sub_ℕ}

-- time.Second
abbrev pub second : ℕ
second = 1000000000

abbrev pub default_max_attempts : ℕ
default_max_attempts = 3

abbrev pub base_backoff : ℕ
base_backoff = second

abbrev pub max_backoff : ℕ
max_backoff = 10 * second

-- http.Header, by what `Get` answers: the empty string for a header that is not there.
abbrev pub Header : Type 0
Header = String → String

pub record Response : Type 0 where
  pub status : ℕ
  pub header : Header

-- What a header's text is read as: `strconv.ParseFloat`, `<= 0` on it, and `time.Until` of the
-- instant that `http.ParseTime` reads.
pub record Readers (F : Type 0) : Type 0 where
  pub parse_float : String → Option F
  pub le_zero : F → Bool
  pub until_date : String → Option ℤ

-- The digits of `strconv.Atoi`, and its range check. A sign may stand in front.
unfoldable pub digits : ℕ → String → Option ℕ
digits n String.[] = some n
digits n (String.◌∷◌ c s) =
    if leb b'0' (code c) && leb (code c) b'9' then digits (n * 10 + (code c - b'0')) s else none

unfoldable pub unsigned : String → Option ℕ
unfolding digits
unsigned s = if s == "" then none else digits 0 s

abbrev pub in_range : Bool → ℕ → Option ℤ
in_range false n = if leb n 9223372036854775807 then some (pos n) else none
in_range true n = if leb n 9223372036854775808 then some (sub_ℕ 0 n) else none

unfoldable pub atoi : String → Option ℤ
unfolding unsigned
atoi String.[] = none
atoi (String.◌∷◌ c s) =
    if code c == b'-'
    then (elim (unsigned s) [ none ↦ none | some n ↦ in_range true n ])
    else if code c == b'+'
    then (elim (unsigned s) [ none ↦ none | some n ↦ in_range false n ])
    else elim (unsigned (String.◌∷◌ c s)) [ none ↦ none | some n ↦ in_range false n ]

-- `time.Duration(seconds) * time.Second`
abbrev pub times_second : ℤ → ℤ
times_second s = wrap64 (sub_ℕ (pos_part s * second) (neg_part s * second))

-- `fallbackBackoff`
unfoldable pub fallback_backoff : ℕ → ℤ
unfolding wrap64
fallback_backoff attempt = min_ℤ (wrap64 (pos (base_backoff * 2 ^ (attempt - 1)))) (pos max_backoff)

-- `retryable`
unfoldable pub retryable : ℕ → Bool
retryable status = status == 429 || (leb 500 status && not (status == 501))

-- `retryableError`
unfoldable pub retryable_error : GoError → Bool
unfolding is
retryable_error e = not (is e canceled) && not (is e deadline_exceeded)

module _ {F : Type 0} (read : Readers F) where
  -- `budgetSpent`
  unfoldable pub budget_spent : Header → Bool
  budget_spent header = elim (read.parse_float (header "RateLimit-Remaining")) [
    | none ↦ false
    | some remaining ↦ read.le_zero remaining
  ]

  -- `retryAfter`; `none` is the answer `0, false`.
  unfoldable pub retry_after : String → Option ℤ
  unfolding atoi wrap64
  retry_after value = if value == "" then none else elim (atoi value) [
    | some seconds ↦ some (max_ℤ (times_second seconds) (pos 0))
    | none ↦ elim (read.until_date value) [ some until ↦ some (max_ℤ until (pos 0)) | none ↦ none ]
  ]

  -- `retryDelay`; `none` is the answer `0, false`.
  unfoldable pub retry_delay : Response → ℕ → Option ℤ
  unfolding retryable retry_after budget_spent fallback_backoff
  retry_delay resp attempt =
      if not (retryable resp.status) then none else elim (retry_after (resp.header "Retry-After")) [
        | some wait ↦ some wait
        | none ↦
            if resp.status == 429 && budget_spent resp.header
            then none
            else some (fallback_backoff attempt)
      ]

  -- `nextWait`; `none` is the answer `0, false`.
  unfoldable pub next_wait : Result Response → ℕ → Option ℤ
  unfolding retryable_error retry_delay fallback_backoff
  next_wait (err e) attempt =
      if not (retryable_error e) then none else some (fallback_backoff attempt)
  next_wait (ok resp) attempt = retry_delay resp attempt
