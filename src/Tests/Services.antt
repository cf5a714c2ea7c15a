-- ===== src/Tests/Services.antt =====
-- The provider service and its registry (app/application/services/provider_service.py,
-- app/infrastructure/providers/registry.py), costs (app/domain/providers/value_objects.py), rate
-- limits (app/infrastructure/cache/rate_limiter.py), degradation
-- (app/application/services/degradation_service.py) and tenants (app/domain/entities/tenant.py); keys
-- (app/domain/entities/api_key.py) and the outbox (app/workers/outbox_flusher.py).
use aiagent_x.Common.{
  ◌++◌, ℕ, suc, ◌+◌, ◌*◌, ◌≡◌, ◌⊎◌, refl, arith, String, Bool, true, false, Option, none, some,
  List, [], ◌∷◌, Result, ok, raise, any, length, min, max, if◌then◌else◌,
}
use aiagent_x.Common.Int.{pos}
use aiagent_x.Common.Dict.{lookup}
use aiagent_x.Common.Text.{str_eq}
use aiagent_x.Provider.Fallback.{FallbackConfig, new_handler}
use aiagent_x.Provider.Registry.{Registry, ProviderConfig, new_registry}
use aiagent_x.Provider.Registry.Consistent.{
  Call, IsConsistent, apply_all, new_registry-apply_all-IsConsistent,
}
use aiagent_x.Provider.Service.{
  Service, CallError, timeout_error, complete, answered, select_provider,
}
use aiagent_x.Provider.Service.Served.{FromFallback, complete-served}
use aiagent_x.Provider.Service.Skipped.{first_fallback_skipped}
use aiagent_x.Cost.{Context, CostCalculation, priced, calculate}
use aiagent_x.Cost.Rounding.{IsNearest, calculate-IsNearest}
use aiagent_x.RateLimit.Script.{allowed_count, window_allows}
use aiagent_x.Degradation.{
  full, attribute_error, is_feature_available, new_service, handle_database_failure,
  check_recovery_conditions,
}
use aiagent_x.Degradation.Recovery
use aiagent_x.Degradation.Recovery.{never_degraded}
use aiagent_x.Common.Value.{null}
use aiagent_x.User.{ApiKey, is_valid}
use aiagent_x.User.Revoked
use aiagent_x.User.Revoked.{invalid_stays}
use aiagent_x.Outbox
use aiagent_x.Outbox.{OutboxEvent, run_flusher}
use aiagent_x.Outbox.Drained.{waiting, never_fails, run_flusher_drains}
use aiagent_x.Tenant.{
  collect_events, tenant_suspended, Tenant, active, free, create, suspend, activate,
}
use aiagent_x.Tenant.Replay.{collects, start, next, suspends, activates, replay, Reaches-replay}

abbrev config : String → ProviderConfig
config name = record {
  provider = name;
  model = "m";
  api_key = "secret";
  base_url = none;
  timeout_seconds = 45;
  connect_timeout_seconds = 3;
  max_retries = 2;
}

-- Providers are their names here.
abbrev name_of : String → String
name_of name = name

new_registry-apply_all-IsConsistent_example : IsConsistent name_of (
    apply_all name_of
      (Call.register "a" (config "a") none none
        ∷ Call.register "b" (config "b") none none
        ∷ Call.unregister "a"
        ∷ [])
      (new_registry name_of))
new_registry-apply_all-IsConsistent_example = new_registry-apply_all-IsConsistent name_of (
    Call.register "a" (config "a") none none
    ∷ Call.register "b" (config "b") none none
    ∷ Call.unregister "a"
    ∷ [])

abbrev three : Registry String
three = record {
  providers = ("a", "a") ∷ ("b", "b") ∷ ("c", "c") ∷ [];
  configs = ("a", config "a") ∷ ("b", config "b") ∷ ("c", config "c") ∷ [];
  retry_policies = [];
  circuit_breaker_configs = [];
}

abbrev fallbacks : FallbackConfig
fallbacks = record {
  primary_provider = "a";
  fallback_providers = "b" ∷ "c" ∷ [];
  max_fallback_attempts = 2;
}

abbrev service : Service String
service = record { registry = three; health = []; handler = new_handler fallbacks; breakers = [] }

-- The first provider times out, and the others answer with what they are asked.
abbrev respond : String → ℕ → Result CallError ℕ
respond name n = if str_eq name "a" then raise (timeout_error "slow") else ok n

abbrev no_latency : ℕ → ℕ
no_latency n = 0

abbrev never : String → ℕ → ℕ → Bool
never name failed total = false

complete-served_example :
    (respond "a" 5 ≡ ok 5)
    ⊎ FromFallback name_of no_latency never respond 5 "a" 5 three.providers ("b" ∷ "c" ∷ [])
unfolding select_provider lookup complete aiagent_x.Provider.Fallback.create_fallback_decision
    aiagent_x.Common.Dict.insert
complete-served_example =
    complete-served name_of no_latency never respond 10 5 none true "a" 5 service refl refl

first_fallback_skipped_example :
    (complete name_of no_latency never respond 10 5 none true service).0
    ≡ answered name_of no_latency never respond (respond "c" 5)
unfolding select_provider lookup aiagent_x.Provider.Service.classify_error
first_fallback_skipped_example =
    first_fallback_skipped name_of no_latency never respond "b" "c" [] 0 10 5 none "a" "c"
      (timeout_error "slow") service refl refl refl refl refl refl refl (refl, refl) (refl, refl)
      refl

abbrev gpt : CostCalculation
gpt =
    priced "openai" "gpt" (record { coefficient = 25; scale = 10 })
      (record { coefficient = 10; scale = 1 })

-- A context that never has to round.
abbrev unlimited : Context
unlimited = record { round = λ a. a; exact = λ a h. refl }

calculate-IsNearest_example :
    (cost : ℕ) × (calculate unlimited gpt (pos 3) (pos 7) ≡ ok cost)
    × IsNearest (3 * 25 * 1 + 7 * 10 * 10) (10 * 1) cost
calculate-IsNearest_example =
    calculate-IsNearest unlimited gpt 3 7 (omega arith) (omega arith) (omega arith)

abbrev times : List ℕ
times = 2000 ∷ 3000 ∷ 4000 ∷ []

window_allows_example :
    allowed_count 2 60 (1000 ∷ times) none ≡ min (length (1000 ∷ times)) (max 1 2)
window_allows_example = window_allows 2 60 1000 times refl

abbrev failures : List Recovery.Call
failures = Recovery.Call.database_failure 5 ∷ Recovery.Call.redis_failure 9 ∷ []

never_degraded_example :
    let s = Recovery.apply_all failures (new_service 1 none 2 1) in
    (s.current_status.mode ≡ full)
    × (is_feature_available "persistence" s ≡ true)
    × (check_recovery_conditions s ≡ true)
    × ((handle_database_failure 10 s).0 ≡ raise attribute_error)
unfolding Recovery.apply_all Recovery.apply new_service handle_database_failure
    aiagent_x.Degradation.handle_redis_failure aiagent_x.Degradation.enter_degradation_mode
never_degraded_example = never_degraded 1 10 2 1 failures "persistence"

abbrev acme : Tenant
acme = record { id = 1; updated_at = 5; events = []; slug = "acme"; plan = free; status = active }

Reaches-replay_example :
    (activate 7 (collect_events (suspend 6 none acme).1).1).1.status
    ≡ replay active (
        (tenant_suspended 1 none ∷ [])
        ++ (activate 7 (collect_events (suspend 6 none acme).1).1).1.events)
unfolding create collect_events suspend
Reaches-replay_example =
    Reaches-replay (λ s. true) (λ s. 4) 1 5 "acme" free active acme (tenant_suspended 1 none ∷ [])
      (activate 7 (collect_events (suspend 6 none acme).1).1).1 refl
      (next (tenant_suspended 1 none ∷ []) [] (collect_events (suspend 6 none acme).1).1
        (activate 7 (collect_events (suspend 6 none acme).1).1).1
        (next [] (tenant_suspended 1 none ∷ []) (suspend 6 none acme).1
          (collect_events (suspend 6 none acme).1).1
          (next [] [] acme (suspend 6 none acme).1 start (suspends 6 none acme))
          (collects (suspend 6 none acme).1))
        (activates 7 (collect_events (suspend 6 none acme).1).1))

abbrev revoked_key : ApiKey
revoked_key = record {
  id = 1;
  updated_at = 5;
  tenant_id = 7;
  key_hash = "h";
  name = none;
  scopes = [];
  expires_at = none;
  revoked_at = some 5;
  last_used_at = none;
}

invalid_stays_example :
    is_valid 9
      (Revoked.apply_all (Revoked.Call.uses 7 7 ∷ Revoked.Call.revokes 8 8 ∷ []) revoked_key)
    ≡ false
unfolding is_valid
invalid_stays_example =
    invalid_stays (Revoked.Call.uses 7 7 ∷ Revoked.Call.revokes 8 8 ∷ []) 6 9 revoked_key refl
      (omega arith)

-- An audit event, another one and a second audit event.
abbrev outbox : List OutboxEvent
unfolding aiagent_x.Outbox.create
outbox =
    Outbox.create 1 5 5 "audit_log" "a" "run" null
    ∷ Outbox.create 2 5 5 "other" "b" "run" null
    ∷ Outbox.create 3 5 5 "audit_log" "c" "run" null
    ∷ []

run_flusher_drains_example :
    (waiting (run_flusher never_fails true 2 (λ r. (9, 9)) 1 outbox) ≡ 0)
    × (run_flusher never_fails false 2 (λ r. (9, 9)) 1 outbox ≡ outbox)
unfolding waiting outbox
run_flusher_drains_example = run_flusher_drains 2 (λ r. (9, 9)) 1 outbox (omega arith)
