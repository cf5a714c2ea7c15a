-- ===== src/Provider/Registry/Consistent.antt =====
-- The four dictionaries of the registry agree (app/infrastructure/providers/registry.py).
use aiagent_x.Common.{
  not, ◌||◌, ◌≡◌, refl, arith, String, Bool, true, false, Option, none, some, is_some, List, [],
  ◌∷◌, if◌then◌else◌,
}
use aiagent_x.Common.Text.{str_eq}
use aiagent_x.Common.Dict.{
  lookup, is_dict, is_dict-insert, is_dict-remove, lookup-insert, lookup-remove,
}
use aiagent_x.Provider.Retry.{RetryPolicy}
use aiagent_x.Provider.Breaker
use aiagent_x.Provider.Registry.{
  ProviderConfig, Registry, new_registry, register_provider, unregister_provider, clear_all,
  removed, insert_some,
}

module _ {V : Type 0} where
  is_dict-insert_some :
      (k : String) (v : Option V) (d : List (String × V))
      → is_dict d ≡ true
      → is_dict (insert_some k v d) ≡ true
  is_dict-insert_some k none d h = h
  is_dict-insert_some k (some v) d h = is_dict-insert k v d h

  -- Where a value is kept under `n` afterwards: under the key that was inserted, or where it was.
  lookup-insert_some :
      (k n : String) (v : Option V) (d : List (String × V))
      → (not (is_some (lookup n (insert_some k v d))) || str_eq k n || is_some (lookup n d)) ≡ true
  lookup-insert_some k n none d = ground arith
  lookup-insert_some k n (some v) d = ground (arith, lookup-insert k n v d)

module _ {Provider : Type 0} (provider_name : Provider → String) where
  pub data Call : Type 0 where
    register : Provider → ProviderConfig → Option RetryPolicy → Option Breaker.Config → Call
    unregister : String → Call
    clear : Call

  unfoldable pub apply : Call → Registry Provider → Registry Provider
  unfolding register_provider unregister_provider
  apply (register p c retry breaker) r = register_provider provider_name p c retry breaker r
  apply (unregister name) r = unregister_provider provider_name name r
  apply clear r = clear_all provider_name r

  unfoldable pub apply_all : List Call → Registry Provider → Registry Provider
  apply_all [] r = r
  apply_all (c ∷ calls) r = apply_all calls (apply c r)

  -- Each dictionary has its keys once; a name has a configuration exactly where it has a provider,
  -- and a retry policy or a breaker's configuration only there.
  pub record IsConsistent (r : Registry Provider) : Type 0 where
    pub dicts :
        (is_dict r.providers ≡ true)
        × (is_dict r.configs ≡ true)
        × (is_dict r.retry_policies ≡ true)
        × (is_dict r.circuit_breaker_configs ≡ true)
    pub configured : (n : String) → is_some (lookup n r.providers) ≡ is_some (lookup n r.configs)
    pub retried :
        (n : String)
        → (not (is_some (lookup n r.retry_policies)) || is_some (lookup n r.providers)) ≡ true
    pub broken :
        (n : String)
        → (not (is_some (lookup n r.circuit_breaker_configs)) || is_some (lookup n r.providers))
          ≡ true

  new_registry-IsConsistent : IsConsistent (new_registry provider_name)
  unfolding is_dict lookup
  new_registry-IsConsistent = record {
    dicts = (refl, refl, refl, refl);
    configured = λ n. refl;
    retried = λ n. refl;
    broken = λ n. refl;
  }

  register_provider-IsConsistent :
      (p : Provider) (c : ProviderConfig) (retry : Option RetryPolicy)
      (breaker : Option Breaker.Config) (r : Registry Provider)
      → IsConsistent r
      → IsConsistent (register_provider provider_name p c retry breaker r)
  unfolding register_provider
  register_provider-IsConsistent p c retry breaker r i =
      let k = provider_name p in
      record {
        dicts = (
          is_dict-insert k p r.providers i.dicts.0,
          is_dict-insert k c r.configs i.dicts.1,
          is_dict-insert_some k retry r.retry_policies i.dicts.2,
          is_dict-insert_some k breaker r.circuit_breaker_configs i.dicts.3,
        );
        configured = λ n.
            ground (
              arith,
              i.configured n,
              lookup-insert k n p r.providers,
              lookup-insert k n c r.configs,
            );
        retried = λ n. ground (
          arith,
          i.retried n,
          lookup-insert k n p r.providers,
          lookup-insert_some k n retry r.retry_policies,
        );
        broken = λ n. ground (
          arith,
          i.broken n,
          lookup-insert k n p r.providers,
          lookup-insert_some k n breaker r.circuit_breaker_configs,
        );
      }

  removed-IsConsistent :
      (k : String) (r : Registry Provider)
      → IsConsistent r
      → IsConsistent (removed provider_name k r)
  removed-IsConsistent k r i =
      let (p, c, t, b) = i.dicts in
      record {
        dicts = (
          is_dict-remove k r.providers p,
          is_dict-remove k r.configs c,
          is_dict-remove k r.retry_policies t,
          is_dict-remove k r.circuit_breaker_configs b,
        );
        configured = λ n.
            ground (
              arith,
              i.configured n,
              lookup-remove k n r.providers p,
              lookup-remove k n r.configs c,
            );
        retried = λ n. ground (
          arith,
          i.retried n,
          lookup-remove k n r.providers p,
          lookup-remove k n r.retry_policies t,
        );
        broken = λ n. ground (
          arith,
          i.broken n,
          lookup-remove k n r.providers p,
          lookup-remove k n r.circuit_breaker_configs b,
        );
      }

  if-IsConsistent :
      (b : Bool) (r r' : Registry Provider)
      → IsConsistent r
      → IsConsistent r'
      → IsConsistent (if b then r else r')
  if-IsConsistent true r r' i i' = i
  if-IsConsistent false r r' i i' = i'

  unregister_provider-IsConsistent :
      (k : String) (r : Registry Provider)
      → IsConsistent r
      → IsConsistent (unregister_provider provider_name k r)
  unfolding unregister_provider
  unregister_provider-IsConsistent k r i =
      if-IsConsistent (is_some (lookup k r.providers)) (removed provider_name k r) r
        (removed-IsConsistent k r i) i

  apply-IsConsistent :
      (c : Call) (r : Registry Provider) → IsConsistent r → IsConsistent (apply c r)
  unfolding apply
  apply-IsConsistent (register p c retry breaker) r i =
      register_provider-IsConsistent p c retry breaker r i
  apply-IsConsistent (unregister name) r i = unregister_provider-IsConsistent name r i
  apply-IsConsistent clear r i = new_registry-IsConsistent

  apply_all-IsConsistent :
      (calls : List Call) (r : Registry Provider)
      → IsConsistent r
      → IsConsistent (apply_all calls r)
  unfolding apply_all
  apply_all-IsConsistent [] r i = i
  apply_all-IsConsistent (c ∷ calls) r i =
      apply_all-IsConsistent calls (apply c r) (apply-IsConsistent c r i)

  -- From the empty registry, any calls that register, unregister and clear leave the four
  -- dictionaries in agreement.
  pub new_registry-apply_all-IsConsistent :
      (calls : List Call) → IsConsistent (apply_all calls (new_registry provider_name))
  new_registry-apply_all-IsConsistent calls =
      apply_all-IsConsistent calls (new_registry provider_name) new_registry-IsConsistent
