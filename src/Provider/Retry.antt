-- ===== src/Provider/Retry.antt =====
-- Retries with backoff (app/infrastructure/providers/retry.py, and `RetryPolicy` of
-- app/domain/providers/value_objects.py). The multiplier, a float, is taken to be a whole number, and
-- its power to be one that a float holds (2.0 ** 1024 raises `OverflowError`), so that the backoff is a
-- whole number of milliseconds; `uniform capped draw` is `random.uniform(0, capped)` at
-- a draw of the generator.
pub mod Attempts
use Prim.Native.Char.{code}
use aiagent_x.Common.{
  ℕ, zero, suc, ◌+◌, ◌*◌, ◌^◌, min, String, Bool, true, false, Option, none, some, List, [], ◌∷◌,
  ◌++◌, Result, ok, raise, leb, ltb, ◌==◌, ◌&&◌, ◌||◌, not, if◌then◌else◌,
}
use aiagent_x.Common.Int.{ℤ, is_neg, is_nonpos, pos_part}
use aiagent_x.Common.Text.{is_space, is_empty, is_blank}

pub data ErrorType : Type 0 where
  timeout rate_limit server_error auth_error validation_error network_error unknown : ErrorType

-- The exceptions that `classify_error` tells apart; `httpx.ConnectTimeout` is a timeout. The header
-- is that of `Retry-After`.
pub data Exception : Type 0 where
  timeout_exception : Exception
  http_status : (status_code : ℕ) → (retry_after : Option String) → Exception
  connect_error : Exception
  value_error : Exception
  other : String → Exception

pub record ProviderError : Type 0 where
  pub is_retryable : Bool
  pub error_type : ErrorType

abbrev is_digit : ℕ → Bool
is_digit c = leb b'0' c && leb c b'9'

abbrev starts_digit : String → Bool
starts_digit String.[] = false
starts_digit (String.◌∷◌ c s) = is_digit (code c)

-- The rest of a number: digits, with single underscores between them, and spaces at the end.
pub digits_left : Bool → String → Bool
digits_left after_digit String.[] = after_digit
digits_left after_digit (String.◌∷◌ c s) = elim (is_digit (code c)) [
  | true ↦ digits_left true s
  | false ↦ elim (code c == b'_') [
    | true ↦ after_digit && starts_digit s && digits_left false s
    | false ↦ after_digit && is_space (code c) && is_blank s
  ]
]

pub signed : String → Bool
unfolding digits_left
signed String.[] = false
signed (String.◌∷◌ c s) =
    if code c == b'+' || code c == b'-'
    then digits_left false s
    else digits_left false (String.◌∷◌ c s)

-- `int(text)` accepts the text: spaces, a sign, and digits (of ASCII; other scripts' are left out).
unfoldable pub is_int : String → Bool
unfolding signed
is_int String.[] = false
is_int (String.◌∷◌ c s) = elim (is_space (code c)) [
  | true ↦ is_int s
  | false ↦ signed (String.◌∷◌ c s)
]

abbrev error : Bool → ErrorType → Result Exception ProviderError
error retryable kind = ok (record { is_retryable = retryable; error_type = kind })

-- `int(retry_after) if retry_after else None`: the number is not used, but a text that is none
-- raises.
abbrev pub reads_retry_after : Option String → Bool
reads_retry_after none = true
reads_retry_after (some s) = is_empty s || is_int s

unfoldable pub classify_error : Exception → Result Exception ProviderError
classify_error timeout_exception = error true timeout
classify_error (http_status status_code retry_after) =
    if status_code == 429
    then (if reads_retry_after retry_after then error true rate_limit else raise value_error)
    else if leb 500 status_code && ltb status_code 600
    then error true server_error
    else if status_code == 401
    then error false auth_error
    else if status_code == 400
    then error false validation_error
    else error false unknown
classify_error connect_error = error true network_error
classify_error value_error = error false unknown
classify_error (other message) = error false unknown

pub data PolicyError : Type 0 where
  retries_negative initial_not_positive max_not_positive multiplier_too_small : PolicyError

pub record RetryPolicy : Type 0 where
  pub max_retries : ℕ
  pub initial_backoff_ms : ℕ
  pub max_backoff_ms : ℕ
  pub backoff_multiplier : ℕ
  pub jitter : Bool

unfoldable pub new_policy : ℤ → ℤ → ℤ → ℤ → Bool → Result PolicyError RetryPolicy
new_policy retries initial max' multiplier jitter =
    if is_neg retries
    then raise retries_negative
    else if is_nonpos initial
    then raise initial_not_positive
    else if is_nonpos max'
    then raise max_not_positive
    else if is_neg multiplier || leb (pos_part multiplier) 1
    then raise multiplier_too_small
    else ok (record {
      max_retries = pos_part retries;
      initial_backoff_ms = pos_part initial;
      max_backoff_ms = pos_part max';
      backoff_multiplier = pos_part multiplier;
      jitter = jitter;
    })

-- One value of the attempt's loop body: the call's outcome is final, or the loop sleeps and goes on.
pub data Verdict (A : Type 0) : Type 0 where
  final : Result Exception A → Verdict A
  again : Verdict A

abbrev pub verdict_of : {A : Type 0} → Bool → Result Exception A → Verdict A
verdict_of is_last (ok a) = final (ok a)
verdict_of is_last (raise e) = elim (classify_error e) [
  | raise e' ↦ final (raise e')
  | ok p ↦ if not p.is_retryable || is_last then final (raise e) else again
]

abbrev pub error_of : {A : Type 0} → Result Exception A → Option Exception
error_of (ok a) = none
error_of (raise e) = some e

module _ (uniform : ℕ → ℕ → ℕ) where
  unfoldable pub calculate_backoff : ℕ → ℕ → RetryPolicy → ℕ
  calculate_backoff draw attempt policy =
      let capped =
        min (policy.initial_backoff_ms * policy.backoff_multiplier ^ attempt)
          policy.max_backoff_ms in
      if policy.jitter then uniform capped draw else capped

  -- `func attempt` is what the call of that number comes to, `draws attempt` the generator's draw
  -- behind it. The result is the outcome with the sleeps, in milliseconds. `left` rounds are left
  -- of `range(max_retries + 1)`; behind the loop, the last error is raised.
  module _ {A : Type 0} (policy : RetryPolicy) (func : ℕ → Result Exception A) (draws : ℕ → ℕ) where
    unfoldable pub retry_loop :
        (left attempt : ℕ) → Option Exception → List ℕ → Result Exception A × List ℕ
    unfolding calculate_backoff
    retry_loop zero attempt none sleeps =
        (raise (other "Max retries exceeded without exception"), sleeps)
    retry_loop zero attempt (some e) sleeps = (raise e, sleeps)
    retry_loop (suc left) attempt last sleeps =
        elim (verdict_of (leb policy.max_retries attempt) (func attempt)) [
          | final outcome ↦ (outcome, sleeps)
          | again ↦
              retry_loop left (attempt + 1) (error_of (func attempt))
                (sleeps ++ calculate_backoff (draws attempt) attempt policy ∷ [])
        ]

    unfoldable pub execute_with_retry : Result Exception A × List ℕ
    unfolding retry_loop
    execute_with_retry = retry_loop (suc policy.max_retries) 0 none []
