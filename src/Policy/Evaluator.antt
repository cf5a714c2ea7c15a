-- ===== src/Policy/Evaluator.antt =====
-- `PolicyEvaluator` (app/domain/value_objects/policy.py). CEL expressions belong to a third-party
-- package: `cel expression context` is its answer as a truth value, `none` if it raises.
use aiagent_x.Common.{
  ℕ, ◌+◌, ◌-◌, ◌%◌, String, Bool, true, false, Option, none, some, List, [], ◌∷◌, not, find,
  if◌then◌else◌, ◌==◌,
}
use aiagent_x.Common.Int.{ℤ, pos, negsuc}
use aiagent_x.Common.Text.{is_empty, str_eq}
use aiagent_x.Common.Value.{Value}
use aiagent_x.Policy.Glob.{fnmatch}
use aiagent_x.Policy.Rules.{
  PolicyCondition, PolicyEffect, PolicyRule, ToolPolicy, RateLimitInfo, PolicyDecision, le_ℤ,
}

-- `sorted(rules, key=lambda r: -r.priority)`: the highest first, equal ones in their order.
unfoldable pub place : PolicyRule → List PolicyRule → List PolicyRule
place r [] = r ∷ []
place r (x ∷ rules) = if le_ℤ x.priority r.priority then r ∷ x ∷ rules else x ∷ place r rules

unfoldable pub sort_rules : List PolicyRule → List PolicyRule
unfolding place
sort_rules [] = []
sort_rules (r ∷ rules) = place r (sort_rules rules)

-- The text, if it is there and not empty.
abbrev pub given : Option String → Option String
given none = none
given (some s) = if is_empty s then none else some s

abbrev pub action_matches : Option String → String → Bool
action_matches none action = true
action_matches (some a) action = str_eq a action

-- Only a rule and a request that both name a resource are compared.
abbrev pub resource_matches : Option String → Option String → Bool
resource_matches none resource = true
resource_matches (some pattern) none = true
resource_matches (some pattern) (some resource) = fnmatch resource pattern

abbrev pub holds : Option Bool → Bool
holds none = false
holds (some b) = b

abbrev pub number : Option ℤ → Option ℤ
number none = none
number (some (pos n)) = if n == 0 then none else some (pos n)
number (some (negsuc n)) = some (negsuc n)

-- The end of the window of the given length, in microseconds, in which the clock stands.
abbrev pub window_end : ℕ → ℕ → ℕ
window_end now length = now - now % length + length

abbrev window : ℤ → String → ℕ → RateLimitInfo
window limit scope reset_at = record {
  limit = limit;
  remaining = limit;
  reset_at = reset_at;
  scope = scope;
}

-- `_build_rate_limit`: the first limit that is set, by minute, hour and day.
unfoldable pub build_rate_limit : ℕ → PolicyEffect → Option RateLimitInfo
build_rate_limit now e = elim (number e.max_calls_per_minute) [
  | some n ↦ some (window n "minute" (window_end now 60000000))
  | none ↦ elim (number e.max_calls_per_hour) [
    | some n ↦ some (window n "hour" (window_end now 3600000000))
    | none ↦ elim (number e.max_calls_per_day) [
      | some n ↦ some (window n "day" (window_end now 86400000000))
      | none ↦ none
    ]
  ]
]

unfoldable pub apply_effect : ℕ → PolicyEffect → Option PolicyRule → PolicyDecision
apply_effect now e rule =
    if e.requires_approval
    then record {
      allowed = false;
      requires_approval = true;
      reason = "Policy requires approval";
      matched_rule = rule;
      rate_limit = build_rate_limit now e;
    }
    else if not e.allow
    then record {
      allowed = false;
      requires_approval = false;
      reason = "Policy denies access";
      matched_rule = rule;
      rate_limit = none;
    }
    else record {
      allowed = true;
      requires_approval = false;
      reason = "Policy allows access";
      matched_rule = rule;
      rate_limit = build_rate_limit now e;
    }

module _ (cel : String → Value → Option Bool) where
  abbrev pub expression_matches : Option String → Value → Bool
  expression_matches none context = true
  expression_matches (some e) context = holds (cel e context)

  unfoldable pub matches_condition : PolicyCondition → String → Option String → Value → Bool
  matches_condition c action resource context =
      if not (action_matches (given c.action) action)
      then false
      else if not (resource_matches (given c.resource) (given resource))
      then false
      else expression_matches (given c.expression) context

  abbrev pub rule_matches : String → Option String → Value → PolicyRule → Bool
  rule_matches action resource context r = matches_condition r.condition action resource context

  unfoldable pub evaluate : ℕ → ToolPolicy → String → Option String → Value → PolicyDecision
  evaluate now policy action resource context =
      elim (find (rule_matches action resource context) (sort_rules policy.rules)) [
        | some r ↦ apply_effect now r.effect (some r)
        | none ↦ apply_effect now policy.default_effect none
      ]
