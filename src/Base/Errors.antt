-- ===== src/Base/Errors.antt =====
-- Go's errors: the sentinels that the code compares with `errors.Is`, and the wrapping of one error
-- in another by `fmt.Errorf` with `%w`.
use Prim.Native.Nat.{ℕ}
use Prim.Native.String.{String}
use mathlib.Core.Bool.{Bool, true, false, ◌||◌}
use mathlib.Core.Option.{Option, none, some}
use mathlib.Core.Path.{◌≡◌}

pub data Sentinel : Type 0 where
  canceled deadline_exceeded : Sentinel
  no_token token_conflict help_shown no_spaces_credentials spaces_credential_conflict : Sentinel
  no_spaces_region non_positive_interval non_positive_timeout negative_rate_limit : Sentinel
  no_response not_success : Sentinel
  no_droplet_measured refresh_cut_short no_bucket_measured no_usage : Sentinel
  no_load_balancer_measured no_repositories_listed no_project_measured no_total : Sentinel

pub Sentinel-discrete : Discrete Sentinel
Sentinel-discrete = hlevel

pub data GoError : Type 0 where
  sentinel : Sentinel → GoError
  -- an error that wraps nothing the code asks for, by its text
  opaque : String → GoError
  -- `*godo.ErrorResponse`, by the status of its response if it has one
  api_error : Option ℕ → GoError
  -- `fmt.Errorf("text: %w", err)`
  wrap : String → GoError → GoError
  -- `fmt.Errorf("%w: %w", a, b)`, which `errors.Is` searches both sides of
  join : GoError → GoError → GoError

same : {s t : Sentinel} → Dec (s ≡ t) → Bool
same (yes _) = true
same (no _) = false

-- `errors.Is(err, target)` for a sentinel.
unfoldable pub is : GoError → Sentinel → Bool
unfolding same Sentinel-discrete
is (sentinel s) t = same (Sentinel-discrete s t)
is (opaque _) t = false
is (api_error _) t = false
is (wrap _ e) t = is e t
is (join a b) t = is a t || is b t

-- `errors.As(err, &apiErr)`: the first API error of the tree, by the status of its response.
unfoldable pub as_api_error : GoError → Option (Option ℕ)
as_api_error (sentinel _) = none
as_api_error (opaque _) = none
as_api_error (api_error status) = some status
as_api_error (wrap _ e) = as_api_error e
as_api_error (join a b) =
    let other = as_api_error b in elim (as_api_error a) [ some x ↦ some x | none ↦ other ]

pub data Result {ℓ} (A : Type ℓ) : Type ℓ where
  ok : A → Result A
  err : GoError → Result A

pub ok_inj {ℓ} : {A : Type ℓ} {a b : A} → ok a ≡ ok b → a ≡ b
ok_inj e = cc

infixl 5 ◌>>=◌ ◌>>◌
abbrev pub ◌>>=◌ {ℓ κ} : {A : Type ℓ} {B : Type κ} → Result A → (A → Result B) → Result B
ok a >>= f = f a
err e >>= f = err e

abbrev pub ◌>>◌ {ℓ κ} : {A : Type ℓ} {B : Type κ} → Result A → Result B → Result B
m >> k = m >>= λ _. k
