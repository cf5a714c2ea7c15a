-- ===== src/RateLimit/Unlimited.antt =====
-- What the rate limits come to (app/application/services/rate_limit_service.py).
use aiagent_x.Common.{
  ℕ, ◌≡◌, refl, arith, String, Bool, true, Option, none, some, is_some, all, ◌∙◌, false, List, [],
  ◌∷◌, Result, ok, raise, succeeded,
}
use aiagent_x.Common.Dict.{lookup}
use aiagent_x.RateLimit.Limiter.{
  Server, RateLimiter, CheckResult, flag, number, text, Key, Arg, ensure_scripts_loaded,
  global_runs, tenant_runs, tenant_endpoint,
}
use aiagent_x.RateLimit.Limiter
use aiagent_x.RateLimit.{
  DefaultLimits, LimitError, PlanLimits, answer, with_limit, count_both, or_else, RateLimitResult,
  limits_of, check_rate_limit, check_concurrent_runs, check_global_concurrency, record_request,
  record_run_start, record_run_end,
}

answer-allowed :
    (limit : ℕ) (o : Option CheckResult)
    → ((c : CheckResult) → o ≡ some c → c.allowed ≡ true)
    → (answer limit o).allowed ≡ true
answer-allowed limit none allows = refl
answer-allowed limit (some c) allows = ground (arith, allows c refl)

limits_of-succeeded :
    (plan : String) (d : DefaultLimits)
    → is_some (lookup "free" d) ≡ true
    → succeeded (limits_of plan d) ≡ true
unfolding limits_of
limits_of-succeeded plan d free = ground (arith, free)

module _ (server : Server) (loads₁ loads₂ : Bool) where
  open server use {State, refuses_bool}

  limiter_allows :
      (now : ℕ) (k : Key) (limit window : ℕ) (l : RateLimiter) (s : State) (c : CheckResult)
      → (Limiter.check_rate_limit server loads₁ loads₂ now k limit window l s).0 ≡ some c
      → c.allowed ≡ true
  unfolding Limiter.check_rate_limit
  limiter_allows now k limit window l s c h =
      let l' = (ensure_scripts_loaded loads₁ loads₂ l).1 in
      ground (
        arith,
        h,
        refuses_bool l'.rate_limit_script_loaded k (number limit ∷ number window ∷ number now ∷ [])
            s,
      )

  concurrency_allows :
      (k : Key) (limit : ℕ) (l : RateLimiter) (s : State) (c : CheckResult)
      → (Limiter.check_concurrency server loads₁ loads₂ k limit l s).0 ≡ some c
      → c.allowed ≡ true
  unfolding Limiter.check_concurrency
  concurrency_allows k limit l s c h =
      let l' = (ensure_scripts_loaded loads₁ loads₂ l).1 in
      ground
        (arith, h, refuses_bool l'.concurrency_script_loaded k (number limit ∷ text "check" ∷ []) s)

  change_keeps :
      (action : String) (k : Key) (l : RateLimiter) (s : State)
      → (Limiter.change_concurrency server loads₁ loads₂ action k l s).2 ≡ s
  unfolding Limiter.change_concurrency
  change_keeps action k l s =
      let l' = (ensure_scripts_loaded loads₁ loads₂ l).1 in
      ground (arith, refuses_bool l'.concurrency_script_loaded k (number 1000 ∷ text action ∷ []) s)

module _ (server : Server) where
  open server use {State}

  with_limit-allowed :
      (r : Result LimitError PlanLimits) (f : PlanLimits → ℕ) (l : RateLimiter) (s : State)
      (check : ℕ → Option CheckResult × RateLimiter × State)
      → succeeded r ≡ true
      → ((n : ℕ) (c : CheckResult) → (check n).0 ≡ some c → c.allowed ≡ true)
      → (a : RateLimitResult) × ((with_limit server r f l s check).0 ≡ ok a) × (a.allowed ≡ true)
  with_limit-allowed (raise e) f l s check h allows = ground (arith, h)
  with_limit-allowed (ok p) f l s check h allows =
      (answer (f p) (check (f p)).0, refl, answer-allowed (f p) (check (f p)).0 (allows (f p)))

  count_both-keeps :
      (count : Key → RateLimiter → State → Bool × RateLimiter × State) (tenant : ℕ)
      (l : RateLimiter) (s : State)
      → ((k : Key) (l : RateLimiter) (s : State) → (count k l s).2 ≡ s)
      → (count_both server count tenant l s).1 ≡ s
  count_both-keeps count tenant l s keeps =
      let (first, l', s') = count (tenant_runs tenant) l s in
      ground (arith, keeps (tenant_runs tenant) l s, keeps global_runs l' s')

-- What the program records with the limiter.
pub data Recording : Type 0 where
  request : (tenant : ℕ) → String → Recording
  run_start run_end : (loads₁ loads₂ : Bool) → (tenant : ℕ) → Recording

-- The limiter and the state of the server behind it.
unfoldable pub apply :
    (server : Server) → Recording → RateLimiter × server.State → RateLimiter × server.State
unfolding record_request record_run_start record_run_end
apply server (request tenant endpoint) (l, s) = (l, record_request server tenant endpoint s)
apply server (run_start loads₁ loads₂ tenant) (l, s) =
    record_run_start server loads₁ loads₂ tenant l s
apply server (run_end loads₁ loads₂ tenant) (l, s) = record_run_end server loads₁ loads₂ tenant l s

unfoldable pub apply_all :
    (server : Server) → List Recording → RateLimiter × server.State → RateLimiter × server.State
unfolding apply
apply_all server [] w = w
apply_all server (r ∷ recordings) w = apply_all server recordings (apply server r w)

unfoldable pub is_run : Recording → Bool
is_run (request tenant endpoint) = false
is_run (run_start loads₁ loads₂ tenant) = true
is_run (run_end loads₁ loads₂ tenant) = true

apply-keeps :
    (server : Server) (r : Recording) (l : RateLimiter) (s : server.State)
    → is_run r ≡ true
    → (apply server r (l, s)).1 ≡ s
unfolding apply is_run record_run_start record_run_end
apply-keeps server (request tenant endpoint) l s h = absurd (ground (arith, h))
apply-keeps server (run_start loads₁ loads₂ tenant) l s h =
    count_both-keeps server (Limiter.change_concurrency server loads₁ loads₂ "increment") tenant l s
      (change_keeps server loads₁ loads₂ "increment")
apply-keeps server (run_end loads₁ loads₂ tenant) l s h =
    count_both-keeps server (Limiter.change_concurrency server loads₁ loads₂ "decrement") tenant l s
      (change_keeps server loads₁ loads₂ "decrement")

-- However many runs start and end, the counters of runs are never changed.
pub runs_uncounted :
    (server : Server) (recordings : List Recording) (l : RateLimiter) (s : server.State)
    → all is_run recordings ≡ true
    → (apply_all server recordings (l, s)).1 ≡ s
unfolding apply_all
runs_uncounted server [] l s h = refl
runs_uncounted server (r ∷ recordings) l s h =
    let (l', s') = apply server r (l, s) in
    runs_uncounted server recordings l' s' (ground (arith, h))
    ∙ apply-keeps server r l s (ground (arith, h))

-- With a free plan in the table of limits, and after any requests, starts and ends of runs have been
-- recorded: every request of any tenant, plan and endpoint is allowed, and so is every run, by the
-- tenant's limit and by the global one; a run's start or end leaves the server's state as it is, so that
-- no run is counted.
pub never_limited :
    (server : Server) (loads₁ loads₂ : Bool) (now tenant global_limit : ℕ) (endpoint plan : String)
    (d : DefaultLimits) (recordings : List Recording) (w : RateLimiter × server.State)
    → is_some (lookup "free" d) ≡ true
    → let (l, s) = apply_all server recordings w in
      ((a : RateLimitResult) × ((check_rate_limit server loads₁ loads₂ now tenant endpoint plan d l
            s).0
          ≡ ok a)
        × (a.allowed ≡ true))
      × ((a : RateLimitResult) × ((check_concurrent_runs server loads₁ loads₂ tenant plan d l s).0
            ≡ ok a)
          × (a.allowed ≡ true))
      × ((check_global_concurrency server loads₁ loads₂ global_limit l s).0.allowed ≡ true)
      × ((record_run_start server loads₁ loads₂ tenant l s).1 ≡ s)
      × ((record_run_end server loads₁ loads₂ tenant l s).1 ≡ s)
unfolding check_rate_limit check_concurrent_runs check_global_concurrency apply is_run
never_limited server loads₁ loads₂ now tenant global_limit endpoint plan d recordings w free =
    let (l, s) = apply_all server recordings w in
    (
      with_limit-allowed server (limits_of plan d) (λ p. or_else 60 p.requests_per_minute) l s
          (λ n.
            Limiter.check_rate_limit server loads₁ loads₂ now (tenant_endpoint tenant endpoint) n 60
              l s)
          (limits_of-succeeded plan d free)
          (λ n. limiter_allows server loads₁ loads₂ now (tenant_endpoint tenant endpoint) n 60 l s),
      with_limit-allowed server (limits_of plan d) (λ p. or_else 5 p.concurrent_runs) l s
          (λ n. Limiter.check_concurrency server loads₁ loads₂ (tenant_runs tenant) n l s)
          (limits_of-succeeded plan d free)
          (λ n. concurrency_allows server loads₁ loads₂ (tenant_runs tenant) n l s),
      answer-allowed global_limit
          (Limiter.check_concurrency server loads₁ loads₂ global_runs global_limit l s).0
          (concurrency_allows server loads₁ loads₂ global_runs global_limit l s),
      apply-keeps server (run_start loads₁ loads₂ tenant) l s refl,
      apply-keeps server (run_end loads₁ loads₂ tenant) l s refl,
    )
