-- ===== src/RateLimit/Limiter.antt =====
-- `RateLimiter` (app/infrastructure/cache/rate_limiter.py): its scripts are loaded once, and then
-- called by what the limiter keeps of them, which is a flag.
use aiagent_x.Common.{
  ℕ, ◌+◌, ◌≡◌, String, Bool, true, false, not, Option, none, some, is_some, List, [], ◌∷◌, ltb,
  if◌then◌else◌,
}

pub data Key : Type 0 where
  tenant_endpoint : ℕ → String → Key
  tenant_runs : ℕ → Key
  global_runs : Key

-- The first argument of `evalsha`: the text of a digest, or a Python `bool`.
pub data Sha : Type 0 where
  digest : String → Sha
  flag : Bool → Sha

pub data Arg : Type 0 where
  number : ℕ → Arg
  text : String → Arg

-- What the limiter sends to Redis; `none` is a call that raises. A reply of `evalsha` is a list of numbers. redis-py refuses to encode a `bool` (`DataError`), so
-- that a command with one never reaches the server.
pub record Server : Type 1 where
  pub State : Type 0
  pub evalsha : Sha → Key → List Arg → State → Option (List ℕ) × State
  pub incr : Key → State → Option ℕ × State
  pub expire : Key → (seconds : ℕ) → State → Option Bool × State
  pub refuses_bool :
      (b : Bool) (k : Key) (args : List Arg) (s : State) → evalsha (flag b) k args s ≡ (none, s)

pub record RateLimiter : Type 0 where
  pub rate_limit_script_loaded : Bool
  pub concurrency_script_loaded : Bool

abbrev pub new_limiter : RateLimiter
new_limiter = record { rate_limit_script_loaded = false; concurrency_script_loaded = false }

-- `_ensure_scripts_loaded`, whether it returns: `loads₁` and `loads₂` tell whether `script_load`
-- does, for each script.
abbrev pub load_second : Bool → RateLimiter → Bool × RateLimiter
load_second loads₂ l =
    if l.concurrency_script_loaded
    then (true, l)
    else (if loads₂ then (true, record l { concurrency_script_loaded = true }) else (false, l))

unfoldable pub ensure_scripts_loaded : (loads₁ loads₂ : Bool) → RateLimiter → Bool × RateLimiter
ensure_scripts_loaded loads₁ loads₂ l =
    if l.rate_limit_script_loaded
    then load_second loads₂ l
    else (if loads₁
        then load_second loads₂ (record l { rate_limit_script_loaded = true })
        else (false, l))

pub record CheckResult : Type 0 where
  pub allowed : Bool
  pub remaining : ℕ
  pub reset_at : ℕ

-- `result[0] > 0`, `result[1]`, `result[2]`; a reply that is too short raises inside the `try`.
abbrev pub read_three : CheckResult → Option (List ℕ) → CheckResult
read_three otherwise none = otherwise
read_three otherwise (some (a ∷ b ∷ c ∷ rest)) = record {
  allowed = ltb 0 a;
  remaining = b;
  reset_at = c;
}
read_three otherwise (some reply) = otherwise

abbrev pub read_two : CheckResult → Option (List ℕ) → CheckResult
read_two otherwise none = otherwise
read_two otherwise (some (a ∷ b ∷ rest)) = record { allowed = ltb 0 a; remaining = b; reset_at = 0 }
read_two otherwise (some reply) = otherwise

-- `now` is `int(time.time())`, in seconds. `none` stands for an exception, which only loading raises.
module _ (server : Server) where
  open server use {State}

  unfoldable pub check_rate_limit :
      (loads₁ loads₂ : Bool)
      → (now : ℕ) → Key
      → (limit window_seconds : ℕ) → RateLimiter
      → State
      → Option CheckResult × RateLimiter × State
  unfolding ensure_scripts_loaded
  check_rate_limit loads₁ loads₂ now key limit window l s =
      let (loaded, l') = ensure_scripts_loaded loads₁ loads₂ l in
      if not loaded
      then (none, l', s)
      else (let (reply, s') =
            server.evalsha (flag l'.rate_limit_script_loaded) key
              (number limit ∷ number window ∷ number now ∷ []) s in
          (
            some (
                read_three (record { allowed = true; remaining = limit; reset_at = now + window })
                  reply),
            l',
            s',
          ))

  unfoldable pub check_concurrency :
      (loads₁ loads₂ : Bool)
      → Key
      → (limit : ℕ) → RateLimiter
      → State
      → Option CheckResult × RateLimiter × State
  unfolding ensure_scripts_loaded
  check_concurrency loads₁ loads₂ key limit l s =
      let (loaded, l') = ensure_scripts_loaded loads₁ loads₂ l in
      if not loaded
      then (none, l', s)
      else (let (reply, s') =
            server.evalsha (flag l'.concurrency_script_loaded) key
              (number limit ∷ text "check" ∷ []) s in
          (
            some (read_two (record { allowed = true; remaining = limit; reset_at = 0 }) reply),
            l',
            s',
          ))

  -- `increment_concurrency` and `decrement_concurrency`, by the action that they name; whether they
  -- return, and not what, which no caller reads.
  unfoldable pub change_concurrency :
      (loads₁ loads₂ : Bool)
      → (action : String) → Key
      → RateLimiter
      → State
      → Bool × RateLimiter × State
  unfolding ensure_scripts_loaded
  change_concurrency loads₁ loads₂ action key l s =
      let (loaded, l') = ensure_scripts_loaded loads₁ loads₂ l in
      if not loaded then (false, l', s) else (
        true,
        l',
        (server.evalsha (flag l'.concurrency_script_loaded) key (number 1000 ∷ text action ∷ [])
            s).1,
      )

  -- Two commands without a script; the second is not sent where the first raises.
  unfoldable pub record_request : Key → (window_seconds : ℕ) → State → Bool × State
  record_request key window s =
      let (count, s') = server.incr key s in
      elim count [
        | none ↦ (false, s')
        | some n ↦ let (set, s'') = server.expire key window s' in (is_some set, s'')
      ]
