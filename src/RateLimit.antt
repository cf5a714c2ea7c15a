-- ===== src/RateLimit.antt =====
-- `RateLimiter` (app/infrastructure/cache/rate_limiter.py) and `RateLimitService`
-- (app/application/services/rate_limit_service.py). What the program sends to Redis are calls of
-- `Server`; `none` is a call that raises.
pub mod Limiter
pub mod Script
pub mod Unlimited
use aiagent_x.Common.{
  ℕ, ◌+◌, ◌≡◌, String, Bool, true, false, Option, none, some, List, [], ◌∷◌, Result, ok, raise,
  if◌then◌else◌,
}
use aiagent_x.Common.Dict.{lookup, insert}
use aiagent_x.RateLimit.Limiter.{
  Server, Key, tenant_endpoint, tenant_runs, global_runs, RateLimiter, CheckResult,
}
use aiagent_x.RateLimit.Limiter

pub record RateLimitResult : Type 0 where
  pub allowed : Bool
  pub remaining : ℕ
  pub reset_at : ℕ
  pub limit : ℕ
  pub exceeded : Bool

pub record PlanLimits : Type 0 where
  pub requests_per_minute : Option ℕ
  pub concurrent_runs : Option ℕ

abbrev pub DefaultLimits : Type 0
DefaultLimits = List (String × PlanLimits)

abbrev plan : String → (requests runs : ℕ) → String × PlanLimits
plan name requests runs =
    (name, record { requests_per_minute = some requests; concurrent_runs = some runs })

-- `default_limits or {…}`: no dictionary, or an empty one, stands for the built-in plans.
unfoldable pub new_limits : DefaultLimits → DefaultLimits
new_limits [] =
    plan "free" 60 5
    ∷ plan "starter" 120 20
    ∷ plan "professional" 300 50
    ∷ plan "enterprise" 600 100
    ∷ []
new_limits (p ∷ limits) = p ∷ limits

unfoldable pub update_plan_limits : String → PlanLimits → DefaultLimits → DefaultLimits
update_plan_limits name limits d = insert name limits d

pub data LimitError : Type 0 where
  no_free_plan : LimitError

abbrev pub or_free : Option PlanLimits → PlanLimits → PlanLimits
or_free none free = free
or_free (some limits) free = limits

-- `limits.get(plan, limits["free"])`: the free plan is looked up in any case.
unfoldable pub limits_of : String → DefaultLimits → Result LimitError PlanLimits
limits_of name d = elim (lookup "free" d) [
  | none ↦ raise no_free_plan
  | some free ↦ ok (or_free (lookup name d) free)
]

abbrev pub or_else : ℕ → Option ℕ → ℕ
or_else n none = n
or_else n (some m) = m

abbrev pub answer : (limit : ℕ) → Option CheckResult → RateLimitResult
answer limit none = record {
  allowed = true;
  remaining = limit;
  reset_at = 0;
  limit = limit;
  exceeded = false;
}
answer limit (some c) =
    if c.allowed
    then record {
      allowed = true;
      remaining = c.remaining;
      reset_at = c.reset_at;
      limit = limit;
      exceeded = false;
    }
    else record {
      allowed = false;
      remaining = 0;
      reset_at = c.reset_at;
      limit = limit;
      exceeded = true;
    }

module _ (server : Server) where
  open server use {State}

  abbrev pub Checked : Type 0
  Checked = Result LimitError RateLimitResult × RateLimiter × State

  abbrev pub with_limit :
      Result LimitError PlanLimits
      → (PlanLimits → ℕ)
      → RateLimiter
      → State
      → (ℕ → Option CheckResult × RateLimiter × State)
      → Checked
  with_limit (raise e) limit l s check = (raise e, l, s)
  with_limit (ok limits) limit l s check =
      let (c, l', s') = check (limit limits) in (ok (answer (limit limits) c), l', s')

  unfoldable pub check_rate_limit :
      (loads₁ loads₂ : Bool)
      → (now tenant : ℕ) → (endpoint name : String) → DefaultLimits
      → RateLimiter
      → State
      → Checked
  unfolding limits_of Limiter.check_rate_limit
  check_rate_limit loads₁ loads₂ now tenant endpoint name d l s =
      with_limit (limits_of name d) (λ p. or_else 60 p.requests_per_minute) l s
        (λ limit.
          Limiter.check_rate_limit server loads₁ loads₂ now (tenant_endpoint tenant endpoint) limit
            60 l s)

  unfoldable pub check_concurrent_runs :
      (loads₁ loads₂ : Bool) → (tenant : ℕ) → String → DefaultLimits → RateLimiter → State → Checked
  unfolding limits_of Limiter.check_concurrency
  check_concurrent_runs loads₁ loads₂ tenant name d l s =
      with_limit (limits_of name d) (λ p. or_else 5 p.concurrent_runs) l s
        (λ limit. Limiter.check_concurrency server loads₁ loads₂ (tenant_runs tenant) limit l s)

  unfoldable pub check_global_concurrency :
      (loads₁ loads₂ : Bool)
      → (limit : ℕ) → RateLimiter
      → State
      → RateLimitResult × RateLimiter × State
  unfolding Limiter.check_concurrency
  check_global_concurrency loads₁ loads₂ limit l s =
      let (c, l', s') = Limiter.check_concurrency server loads₁ loads₂ global_runs limit l s in
      (answer limit c, l', s')

  unfoldable pub record_request : (tenant : ℕ) → (endpoint : String) → State → State
  unfolding Limiter.record_request
  record_request tenant endpoint s =
      (Limiter.record_request server (tenant_endpoint tenant endpoint) 60 s).1

  -- The second counter is only reached where loading the scripts does not raise for the first.
  abbrev pub count_both :
      (Key → RateLimiter → State → Bool × RateLimiter × State)
      → ℕ
      → RateLimiter
      → State
      → RateLimiter × State
  count_both count tenant l s =
      let (first, l', s') = count (tenant_runs tenant) l s in
      let (_, l'', s'') = count global_runs l' s' in if first then (l'', s'') else (l', s')

  unfoldable pub record_run_start :
      (loads₁ loads₂ : Bool) → (tenant : ℕ) → RateLimiter → State → RateLimiter × State
  unfolding Limiter.change_concurrency
  record_run_start loads₁ loads₂ tenant l s =
      count_both (Limiter.change_concurrency server loads₁ loads₂ "increment") tenant l s

  unfoldable pub record_run_end :
      (loads₁ loads₂ : Bool) → (tenant : ℕ) → RateLimiter → State → RateLimiter × State
  unfolding Limiter.change_concurrency
  record_run_end loads₁ loads₂ tenant l s =
      count_both (Limiter.change_concurrency server loads₁ loads₂ "decrement") tenant l s
