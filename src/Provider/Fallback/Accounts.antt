-- ===== src/Provider/Fallback/Accounts.antt =====
-- What a fallback uses up (app/infrastructure/providers/fallback.py and
-- app/application/services/fallback_service.py).
use aiagent_x.Common.{
  ◌+◌, ◌≡◌, ◌≤◌, ◌⊎◌, inl, inr, refl, sym, ap, ◌∙◌, arith, String, Bool, true, false, Option, none,
  some, List, [], ◌∷◌, ok, raise, Bool-cases, Option-cases,
}
use aiagent_x.Common.Dict.{lookup, lookup-insert, str_eq_refl}
use aiagent_x.Provider.Fallback.{
  FallbackReason, circuit_open, timeout, rate_limit, server_error, Handler, Service, not_allowed,
  or_unknown, count_of, get_fallback_provider, validate_provider_compatibility, chosen,
  is_error_type_fallbackable, create_fallback_decision, should_fallback, use_provider,
  execute_with_fallback,
}

-- The count grows by one with each provider handed out, up to the configured number.
get_fallback_provider-count :
    (primary : String) (h : Handler)
    → (p : String) → chosen ((get_fallback_provider primary h).0) ≡ some p
    → (count_of primary ((get_fallback_provider primary h).1) ≡ count_of primary h + 1)
      × (count_of primary h + 1 ≤ h.config.max_fallback_attempts)
unfolding get_fallback_provider
get_fallback_provider-count primary h p eq = ground (
  arith,
  lookup-insert primary primary (count_of primary h + 1) h.fallback_count,
  str_eq_refl primary,
)

create_fallback_decision-count :
    (primary : String) (why : FallbackReason) (metadata : List (String × String)) (h : Handler)
    → (create_fallback_decision primary why metadata h).0.should_fallback ≡ true
    → (count_of primary ((create_fallback_decision primary why metadata h).1)
        ≡ count_of primary h + 1)
unfolding create_fallback_decision
create_fallback_decision-count primary why metadata h eq =
    elim (Option-cases (chosen ((get_fallback_provider primary h).0))) [
      | inl nothing ↦ ground arith
      | inr (p, something) ↦ (get_fallback_provider-count primary h p something).0
    ]

should_fallback-count :
    (primary error_type circuit_state : String) (irreversible : Bool) (h : Handler)
    → (should_fallback primary error_type circuit_state irreversible h).0.should_fallback ≡ true
    → (irreversible ≡ false)
      × (is_error_type_fallbackable error_type ≡ true)
      × (count_of primary ((should_fallback primary error_type circuit_state irreversible h).1)
          ≡ count_of primary h + 1)
unfolding should_fallback
should_fallback-count primary error_type circuit_state irreversible h eq = ground (
  arith,
  create_fallback_decision-count primary circuit_open (("circuit_state", circuit_state) ∷ []) h,
  create_fallback_decision-count primary timeout (("error_type", error_type) ∷ []) h,
  create_fallback_decision-count primary rate_limit (("error_type", error_type) ∷ []) h,
  create_fallback_decision-count primary server_error (("error_type", error_type) ∷ []) h,
)

should_fallback-config :
    (primary error_type circuit_state : String) (irreversible : Bool) (h : Handler)
    → (should_fallback primary error_type circuit_state irreversible h).1.config ≡ h.config
unfolding should_fallback create_fallback_decision get_fallback_provider
should_fallback-config primary error_type circuit_state irreversible h = ground arith

use_provider-handler :
    {Request Response : Type 0} (request : Request) (primary : String) (why : FallbackReason)
    (next : Option String) (s : Service Request Response)
    → (use_provider request primary why next s).1.handler ≡ s.handler
use_provider-handler request primary why none s = refl
use_provider-handler request primary why (some name) s = ground arith

use_provider-ok :
    {Request Response : Type 0} (request : Request) (primary : String) (why : FallbackReason)
    (next : Option String) (s : Service Request Response) (response : Response)
    → (use_provider request primary why next s).0 ≡ ok response
    → (name : String) × (next ≡ some name)
      × (validate_provider_compatibility primary name s.handler ≡ true)
use_provider-ok request primary why none s response eq = ground arith
use_provider-ok request primary why (some name) s response eq = (name, refl, ground arith)

-- The state that the fallback provider is used in.
abbrev pub attempted :
    {Request Response : Type 0} (primary error_type circuit_state : String)
    → Bool
    → Service Request Response
    → Service Request Response
attempted primary error_type circuit_state irreversible s = record s {
  handler =
      (get_fallback_provider primary
        ((should_fallback primary error_type circuit_state irreversible s.handler).1)).1;
  metrics = record s.metrics { total_fallback_attempts = s.metrics.total_fallback_attempts + 1 };
}

abbrev pub next_provider :
    {Request Response : Type 0} (primary error_type circuit_state : String)
    → Bool
    → Service Request Response
    → Option String
next_provider primary error_type circuit_state irreversible s = chosen (
    (get_fallback_provider primary
      ((should_fallback primary error_type circuit_state irreversible s.handler).1)).0)

pub execute_with_fallback-cases :
    {Request Response : Type 0} (request : Request) (primary error_type circuit_state : String)
    (irreversible : Bool) (s : Service Request Response)
    → ((why : String) × (execute_with_fallback request primary error_type circuit_state irreversible
            s
          ≡ (
            raise (not_allowed why primary),
            record s {
              handler = (should_fallback primary error_type circuit_state irreversible s.handler).1;
            },
          )))
      ⊎ (((should_fallback primary error_type circuit_state irreversible
              s.handler).0.should_fallback
            ≡ true)
          × (execute_with_fallback request primary error_type circuit_state irreversible s
              ≡ use_provider request primary
                  ((should_fallback primary error_type circuit_state irreversible
                    s.handler).0.reason)
                  (next_provider primary error_type circuit_state irreversible s)
                  (attempted primary error_type circuit_state irreversible s)))
unfolding execute_with_fallback
execute_with_fallback-cases request primary error_type circuit_state irreversible s =
    elim (Bool-cases (
      (should_fallback primary error_type circuit_state irreversible
        s.handler).0.should_fallback)) [
          | inr refused ↦ inl (
            or_unknown (
                lookup "reason" (
                  (should_fallback primary error_type circuit_state irreversible
                    s.handler).0.metadata)),
            ground arith,
          )
          | inl allowed ↦ inr (allowed, ground arith)
        ]

-- A request is answered through a fallback only where no irreversible effect was executed and the
-- error is one that allows a fallback, and the answer uses up two of the primary provider's
-- fallback attempts, both of which the provider had left.
pub execute_with_fallback-ok :
    {Request Response : Type 0} (request : Request) (primary error_type circuit_state : String)
    (irreversible : Bool) (s : Service Request Response) (response : Response)
    → (execute_with_fallback request primary error_type circuit_state irreversible s).0
      ≡ ok response
    → (irreversible ≡ false)
      × (is_error_type_fallbackable error_type ≡ true)
      × (count_of primary (
            (execute_with_fallback request primary error_type circuit_state irreversible
              s).1.handler)
          ≡ count_of primary s.handler + 2)
      × (count_of primary s.handler + 2 ≤ s.handler.config.max_fallback_attempts)
execute_with_fallback-ok request primary error_type circuit_state irreversible s response eq =
    elim (execute_with_fallback-cases request primary error_type circuit_state irreversible s) [
      | inl (why, run) ↦ ground (arith)
      | inr (allowed, run) ↦
          let h = (should_fallback primary error_type circuit_state irreversible s.handler).1 in
          let s' = attempted primary error_type circuit_state irreversible s in
          let r =
            (should_fallback primary error_type circuit_state irreversible s.handler).0.reason in
          let next = next_provider primary error_type circuit_state irreversible s in
          let used =
            use_provider-ok request primary r next s' response (ap (λ x. x.0) (sym run) ∙ eq) in
          let counted =
            should_fallback-count primary error_type circuit_state irreversible s.handler allowed in
          let again = get_fallback_provider-count primary h (used.0) (used.1) in
          let kept =
            should_fallback-config primary error_type circuit_state irreversible s.handler in
          let same = ap (λ x. x.1.handler) run ∙ use_provider-handler request primary r next s' in
          (
            counted.0,
            counted.1,
            rw (same, again.0, counted.2) (omega arith),
            omega (arith, ap (λ c. c.max_fallback_attempts) kept, counted.2, again.1),
          )
    ]
