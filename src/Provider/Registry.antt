-- ===== src/Provider/Registry.antt =====
-- `ProviderRegistry` (app/infrastructure/providers/registry.py) and the configuration that it checks
-- (app/domain/providers/value_objects.py). A provider is a type of its own, with its name.
pub mod Consistent
use aiagent_x.Common.{
  ℕ, String, Bool, true, false, Option, none, some, is_some, List, [], ◌∷◌, Result, ok, raise, map,
  length, if◌then◌else◌,
}
use aiagent_x.Common.Int.{ℤ, pos, is_neg, is_nonpos, pos_part}
use aiagent_x.Common.Text.{is_empty}
use aiagent_x.Common.Dict.{lookup, insert, remove}
use aiagent_x.Provider.Retry.{RetryPolicy}
use aiagent_x.Provider.Breaker

pub record ProviderConfig : Type 0 where
  pub provider : String
  pub model : String
  pub api_key : String
  pub base_url : Option String
  pub timeout_seconds : ℕ
  pub connect_timeout_seconds : ℕ
  pub max_retries : ℕ

pub data ConfigError : Type 0 where
  provider_empty model_empty api_key_empty : ConfigError
  timeout_not_positive connect_timeout_not_positive retries_negative : ConfigError

unfoldable pub new_config :
    (provider model api_key : String)
    → Option String
    → (timeout_seconds connect_timeout_seconds max_retries : ℤ) → Result ConfigError ProviderConfig
new_config provider model api_key base_url timeout connect_timeout retries =
    if is_empty provider
    then raise provider_empty
    else if is_empty model
    then raise model_empty
    else if is_empty api_key
    then raise api_key_empty
    else if is_nonpos timeout
    then raise timeout_not_positive
    else if is_nonpos connect_timeout
    then raise connect_timeout_not_positive
    else if is_neg retries
    then raise retries_negative
    else ok (record {
      provider = provider;
      model = model;
      api_key = api_key;
      base_url = base_url;
      timeout_seconds = pos_part timeout;
      connect_timeout_seconds = pos_part connect_timeout;
      max_retries = pos_part retries;
    })

pub record Registry (Provider : Type 0) : Type 0 where
  pub providers : List (String × Provider)
  pub configs : List (String × ProviderConfig)
  pub retry_policies : List (String × RetryPolicy)
  pub circuit_breaker_configs : List (String × Breaker.Config)

-- `if value: d[key] = value`.
abbrev pub insert_some : {V : Type 0} → String → Option V → List (String × V) → List (String × V)
insert_some key none d = d
insert_some key (some v) d = insert key v d

module _ {Provider : Type 0} (provider_name : Provider → String) where
  abbrev pub new_registry : Registry Provider
  new_registry = record {
    providers = [];
    configs = [];
    retry_policies = [];
    circuit_breaker_configs = [];
  }

  unfoldable pub register_provider :
      Provider
      → ProviderConfig
      → Option RetryPolicy
      → Option Breaker.Config
      → Registry Provider
      → Registry Provider
  register_provider p config retry breaker r = record {
    providers = insert (provider_name p) p r.providers;
    configs = insert (provider_name p) config r.configs;
    retry_policies = insert_some (provider_name p) retry r.retry_policies;
    circuit_breaker_configs = insert_some (provider_name p) breaker r.circuit_breaker_configs;
  }

  abbrev pub get_provider : String → Registry Provider → Option Provider
  get_provider name r = lookup name r.providers

  abbrev pub get_provider_config : String → Registry Provider → Option ProviderConfig
  get_provider_config name r = lookup name r.configs

  abbrev pub get_retry_policy : String → Registry Provider → Option RetryPolicy
  get_retry_policy name r = lookup name r.retry_policies

  abbrev pub get_circuit_breaker_config : String → Registry Provider → Option Breaker.Config
  get_circuit_breaker_config name r = lookup name r.circuit_breaker_configs

  -- `del` on the first two; its KeyError, where the second had no such key, cannot come up.
  abbrev pub removed : String → Registry Provider → Registry Provider
  removed name r = record {
    providers = remove name r.providers;
    configs = remove name r.configs;
    retry_policies = remove name r.retry_policies;
    circuit_breaker_configs = remove name r.circuit_breaker_configs;
  }

  unfoldable pub unregister_provider : String → Registry Provider → Registry Provider
  unregister_provider name r = if is_some (lookup name r.providers) then removed name r else r

  abbrev pub clear_all : Registry Provider → Registry Provider
  clear_all r = new_registry
