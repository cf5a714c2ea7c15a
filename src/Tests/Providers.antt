-- ===== src/Tests/Providers.antt =====
-- A breaker, a retried call and a fallback (app/infrastructure/providers/).
use aiagent_x.Common.{
  ℕ, ◌≡◌, ◌⊎◌, ◌≤◌, ◌*◌, ◌+◌, refl, arith, String, Bool, true, false, Option, none, some, List, [],
  ◌∷◌, ok, raise, zero, suc, leb, min, length, all, All, Result,
}
use aiagent_x.Common.Int.{pos}
use aiagent_x.Provider.Breaker
use aiagent_x.Provider.Breaker.{
  Breaker, Config, closed, open', half_open, no_metrics, record_failure, can_execute,
}
use aiagent_x.Provider.Breaker.Cycle
use aiagent_x.Provider.Breaker.Cycle.{
  Call, IsValid, apply_all-create-IsValid, failure_opens, open_waits,
}
use aiagent_x.Provider.Breaker.HalfOpen.{asks, half_open_unlimited}
use aiagent_x.Provider.Retry.{Exception, RetryPolicy, execute_with_retry, http_status}
use aiagent_x.Provider.Retry.Attempts.{
  all_transient, is_transient_outcome, reported, execute_with_retry-decider,
  execute_with_retry-sleeps,
}
use aiagent_x.Provider.Fallback.{
  FallbackConfig, Service, new_service, execute_with_fallback, count_of, is_error_type_fallbackable,
}
use aiagent_x.Provider.Fallback.Balance
use aiagent_x.Provider.Fallback.Accounts.{execute_with_fallback-ok}
use aiagent_x.Provider.Fallback.Balance.{IsBalanced, new_service-apply_all-IsBalanced}

-- Half of the requests failed.
abbrev half : ℕ → ℕ → Bool
half failed total = leb total (2 * failed)

abbrev config : Config
config = record { minimum_requests = 2; open_timeout_seconds = 30; half_open_max_calls = 3 }

abbrev new_breaker : Breaker
new_breaker = record {
  config = config;
  provider_name = "openai";
  state = closed;
  metrics = no_metrics;
  failure_window = [];
  open_timestamp = none;
  half_open_calls = 0;
}

abbrev failing : Breaker
failing = record new_breaker {
  metrics = record no_metrics { total_requests = 1; failed_requests = 1 };
}

abbrev opened : Breaker
opened = record new_breaker { state = open'; open_timestamp = some 1000000 }

abbrev trying : Breaker
trying = record new_breaker { state = half_open; open_timestamp = some 1000000 }

abbrev breaker_calls : List Call
breaker_calls =
    Call.failure 1 ∷ Call.failure 2 ∷ Call.ask 40000000 ∷ Call.success 40000001 ∷ Call.reset' ∷ []

apply_all-create-IsValid_example : IsValid (Cycle.apply_all half breaker_calls new_breaker)
unfolding Breaker.new_config Breaker.create
apply_all-create-IsValid_example =
    apply_all-create-IsValid half (pos 2) (pos 30) (pos 3) "openai" refl refl breaker_calls

half_open_unlimited_example :
    (all (λ x. x) (asks (1 ∷ 2 ∷ 3 ∷ 4 ∷ []) trying).0 ≡ true)
    × ((asks (1 ∷ 2 ∷ 3 ∷ 4 ∷ []) trying).1 ≡ trying)
    × (length (asks (1 ∷ 2 ∷ 3 ∷ 4 ∷ []) trying).0 ≡ 4)
half_open_unlimited_example = half_open_unlimited (1 ∷ 2 ∷ 3 ∷ 4 ∷ []) trying refl (omega arith)

abbrev policy : RetryPolicy
policy = record {
  max_retries = 2;
  initial_backoff_ms = 100;
  max_backoff_ms = 150;
  backoff_multiplier = 2;
  jitter = true;
}

-- The first call is refused for the rate, the second answers.
abbrev func : ℕ → Result Exception String
func zero = raise (http_status 429 none)
func (suc n) = ok "answer"

abbrev draws : ℕ → ℕ
draws n = 70

execute_with_retry-decider_example :
    (n : ℕ) × (n ≤ 2)
    × (all_transient min policy func draws n 0 ≡ true)
    × ((n ≡ 2) ⊎ (is_transient_outcome (func n) ≡ false))
    × ((execute_with_retry min policy func draws).0 ≡ reported (func n))
    × (length ((execute_with_retry min policy func draws).1) ≡ n)
execute_with_retry-decider_example = execute_with_retry-decider min policy func draws

execute_with_retry-sleeps_example :
    (length ((execute_with_retry min policy func draws).1) ≤ 2)
    × All (λ sleep. sleep ≤ 150) ((execute_with_retry min policy func draws).1)
execute_with_retry-sleeps_example =
    execute_with_retry-sleeps min policy func draws (λ capped draw. omega arith)

abbrev fallbacks : FallbackConfig
fallbacks = record {
  primary_provider = "openai";
  fallback_providers = "anthropic" ∷ "fake" ∷ [];
  max_fallback_attempts = 2;
}

abbrev service : Service String String
service = new_service (("fake", λ request. ok request) ∷ []) fallbacks

execute_with_fallback-ok_example :
    (false ≡ false)
    × (is_error_type_fallbackable "timeout" ≡ true)
    × (count_of "openai"
          (execute_with_fallback "hello" "openai" "timeout" "closed" false service).1.handler
        ≡ 2)
    × (2 ≤ 2)
unfolding execute_with_fallback aiagent_x.Provider.Fallback.should_fallback
    aiagent_x.Provider.Fallback.create_fallback_decision
    aiagent_x.Provider.Fallback.get_fallback_provider aiagent_x.Common.Dict.lookup
    aiagent_x.Provider.Fallback.validate_provider_compatibility aiagent_x.Common.Dict.insert
execute_with_fallback-ok_example =
    execute_with_fallback-ok "hello" "openai" "timeout" "closed" false service "hello" refl

new_service-apply_all-IsBalanced_example :
    IsBalanced
      (Balance.apply_all
        (Balance.execute "hello" "openai" "timeout" "closed" false ∷ Balance.reset_all ∷ [])
        service).metrics
new_service-apply_all-IsBalanced_example =
    new_service-apply_all-IsBalanced (("fake", λ request. ok request) ∷ []) fallbacks
      (Balance.execute "hello" "openai" "timeout" "closed" false ∷ Balance.reset_all ∷ [])
