-- ===== src/Provider/Health.antt =====
-- `ProviderHealthMonitor` (app/infrastructure/providers/health.py). Times are in microseconds; the
-- average of the latencies, which is a float, is left out.
use aiagent_x.Common.{
  ℕ, ◌+◌, ◌-◌, String, Bool, true, false, Option, none, some, List, [], ◌∷◌, ◌++◌, length, drop,
  is_some, ◌==◌, if◌then◌else◌,
}
use aiagent_x.Common.Dict.{lookup, insert}

pub record ProviderHealth : Type 0 where
  pub provider_name : String
  pub is_healthy : Bool
  pub last_check_time : Option ℕ
  pub last_success_time : Option ℕ
  pub last_failure_time : Option ℕ
  pub consecutive_failures : ℕ
  pub consecutive_successes : ℕ
  pub total_checks : ℕ
  pub successful_checks : ℕ
  pub failed_checks : ℕ
  pub latency_samples : List ℕ

abbrev pub new_health : String → ProviderHealth
new_health name = record {
  provider_name = name;
  is_healthy = true;
  last_check_time = none;
  last_success_time = none;
  last_failure_time = none;
  consecutive_failures = 0;
  consecutive_successes = 0;
  total_checks = 0;
  successful_checks = 0;
  failed_checks = 0;
  latency_samples = [];
}

-- The samples after one more, of which the last hundred are kept.
abbrev pub sampled : List ℕ → ℕ → List ℕ
sampled samples latency = let s = samples ++ latency ∷ [] in drop (length s - 100) s

unfoldable pub record_check : (now now' : ℕ) → Bool → ℕ → ProviderHealth → ProviderHealth
record_check now now' true latency h = record h {
  total_checks = h.total_checks + 1;
  last_check_time = some now;
  successful_checks = h.successful_checks + 1;
  consecutive_successes = h.consecutive_successes + 1;
  consecutive_failures = 0;
  last_success_time = some now';
  is_healthy = true;
  latency_samples = sampled h.latency_samples latency;
}
record_check now now' false latency h = record h {
  total_checks = h.total_checks + 1;
  last_check_time = some now;
  failed_checks = h.failed_checks + 1;
  consecutive_failures = h.consecutive_failures + 1;
  consecutive_successes = 0;
  last_failure_time = some now';
  is_healthy = false;
  latency_samples = sampled h.latency_samples latency;
}

abbrev pub Monitor : Type 0
Monitor = List (String × ProviderHealth)

unfoldable pub register_provider : String → Monitor → Monitor
register_provider name m = if is_some (lookup name m) then m else insert name (new_health name) m

abbrev pub or_new : String → Option ProviderHealth → ProviderHealth
or_new name none = new_health name
or_new name (some h) = h

unfoldable pub record_health_check : (now now' : ℕ) → String → Bool → ℕ → Monitor → Monitor
unfolding record_check
record_health_check now now' name healthy latency m =
    insert name (record_check now now' healthy latency (or_new name (lookup name m))) m

abbrev pub healthy_of : Option ProviderHealth → Bool
healthy_of none = false
healthy_of (some h) = h.is_healthy

unfoldable pub is_provider_healthy : String → Monitor → Bool
is_provider_healthy name m = healthy_of (lookup name m)

unfoldable pub healthy_providers : Monitor → ℕ
healthy_providers [] = 0
healthy_providers ((name, h) ∷ m) = (if h.is_healthy then 1 else 0) + healthy_providers m

unfoldable pub overall_healthy : Monitor → Bool
unfolding healthy_providers
overall_healthy m = healthy_providers m == length m

unfoldable pub reset_provider : String → Monitor → Monitor
reset_provider name m = if is_some (lookup name m) then insert name (new_health name) m else m
