-- ===== src/Policy/Effects.antt =====
-- What a decision of a policy says (app/domain/value_objects/policy.py, tool_grant.py).
use aiagent_x.Common.{
  ℕ, ◌+◌, ◌≡◌, ◌≢◌, ◌≤◌, ◌<◌, String, Bool, false, Option, none, some, arith, not, is_some, true,
  ◌&&◌, ◌||◌, find,
}
use aiagent_x.Common.Int.{pos}
use aiagent_x.Common.Value.{Value}
use aiagent_x.Policy.Rules.{
  PolicyCondition, PolicyEffect, PolicyRule, PolicyDecision, RateLimitInfo, ToolPolicy,
}
use aiagent_x.Policy.Evaluator.{
  apply_effect, build_rate_limit, matches_condition, evaluate, rule_matches, sort_rules,
}
use aiagent_x.Policy.Grant
use aiagent_x.Policy.Grant.{ToolGrant}

-- A rate limit that a decision carries is one of the effect's, not zero, with all of it left, and
-- is reset after the clock's reading and within a day of it.
pub build_rate_limit_bounds :
    (now : ℕ) (e : PolicyEffect) {info : RateLimitInfo}
    → build_rate_limit now e ≡ some info
    → (info.limit ≢ pos 0)
      × (info.remaining ≡ info.limit)
      × (now < info.reset_at)
      × (info.reset_at ≤ now + 86400000000)
unfolding build_rate_limit
build_rate_limit_bounds now e h = ground arith

-- The three answers of a policy exclude one another: an allowed request needs no approval, one that
-- needs approval is not allowed, and one that is neither carries no rate limit.
abbrev pub IsConsistent : PolicyDecision → Type 0
IsConsistent d =
    ((d.allowed && d.requires_approval) ≡ false)
    × ((d.allowed || d.requires_approval || not (is_some d.rate_limit)) ≡ true)

apply_effect-IsConsistent :
    (now : ℕ) (e : PolicyEffect) (r : Option PolicyRule) → IsConsistent (apply_effect now e r)
unfolding apply_effect
apply_effect-IsConsistent now e r = ground arith

module _ (cel : String → Value → Option Bool) where
  evaluate-IsConsistent :
      (now : ℕ) (p : ToolPolicy) (action : String) (resource : Option String) (context : Value)
      → IsConsistent (evaluate cel now p action resource context)
  unfolding evaluate
  evaluate-IsConsistent now p action resource context =
      elim (find (rule_matches cel action resource context) (sort_rules p.rules))
        as (λ o. IsConsistent (elim o [
          | some r ↦ apply_effect now r.effect (some r)
          | none ↦ apply_effect now p.default_effect none
        ])) [
          | none ↦ apply_effect-IsConsistent now p.default_effect none
          | some r ↦ apply_effect-IsConsistent now r.effect (some r)
        ]

  -- Every decision of a grant is consistent; an inactive grant allows nothing and asks for no
  -- approval, whatever its policy.
  pub grant-IsConsistent :
      (now : ℕ) (g : ToolGrant) (action : String) (resource : Option String) (context : Value)
      → let d = Grant.evaluate cel now g action resource context in
        IsConsistent d × (((d.allowed || d.requires_approval) && not g.is_active) ≡ false)
  unfolding Grant.evaluate
  grant-IsConsistent now g action resource context =
      ground (arith, evaluate-IsConsistent now g.policy action resource context)

  -- A decision to deny carries no rate limit.
  pub no_rate_limit :
      (now : ℕ) (g : ToolGrant) (action : String) (resource : Option String) (context : Value)
      → (Grant.evaluate cel now g action resource context).allowed ≡ false
      → (Grant.evaluate cel now g action resource context).requires_approval ≡ false
      → (Grant.evaluate cel now g action resource context).rate_limit ≡ none
  no_rate_limit now g action resource context a b =
      ground (arith, (grant-IsConsistent now g action resource context).0.1)

  -- A request that names no resource meets a condition as if the condition named none: what a rule
  -- says of its resource is not held against it.
  pub matches_condition_no_resource :
      (c : PolicyCondition) (action : String) (resource : Option String) (context : Value)
      → matches_condition cel c action none context
        ≡ matches_condition cel (record c { resource = none }) action resource context
  unfolding matches_condition
  matches_condition_no_resource c action resource context = ground arith
