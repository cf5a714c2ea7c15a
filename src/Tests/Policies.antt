-- ===== src/Tests/Policies.antt =====
-- A policy of three rules, and calls under it (app/domain/value_objects/policy.py,
-- app/domain/entities/tool_grant.py, app/application/services/tool_execution_service.py).
use aiagent_x.Common.{
  ◌≡◌, ◌⊎◌, refl, String, Bool, true, false, Option, none, some, List, [], ◌∷◌, ok, succeeded, All,
  ◌||◌, ◌&&◌,
}
use aiagent_x.Common.Int.{ℤ, pos}
use aiagent_x.Common.Value.{Value, null}
use aiagent_x.Policy.Rules
use aiagent_x.Policy.Rules.{
  PolicyCondition, PolicyEffect, PolicyRule, PolicyDecision, ToolPolicy, RateLimitInfo,
  require_approval,
}
use aiagent_x.Policy.Evaluator
use aiagent_x.Policy.Evaluator.{apply_effect, build_rate_limit, matches_condition, rule_matches}
use aiagent_x.Policy.Glob.{fnmatch}
use aiagent_x.Policy.Grant
use aiagent_x.Policy.Grant.{ToolGrant, LegacyPolicy, plain, from_legacy_dict, allows}
use aiagent_x.Policy.Priority.{IsFirstHighest, evaluate_highest}
use aiagent_x.Policy.Effects.{IsConsistent, grant-IsConsistent}
use aiagent_x.Policy.Legacy.{legacy-allows}
use aiagent_x.ToolExecution.Service.{World, ToolCall, RateKey, execute_tool, execute_tool_handler}
use aiagent_x.ToolExecution.Checks.{execute_tool-handled, denied_runs, approval_raises}
use aiagent_x.Tests.Runs.{new_run}

test_glob : fnmatch "db/users" "db/*" ≡ true
unfolding fnmatch
test_glob = refl

test_set : fnmatch "v3x" "v[!0-2]?" ≡ true
unfolding fnmatch
test_set = refl

-- An evaluator that knows no expression, and a limiter with room for every call.
abbrev no_cel : String → Value → Option Bool
no_cel expression context = none

abbrev unlimited : RateKey → ℤ → String → Bool
unlimited key limit scope = true

abbrev on_action : String → Option String → PolicyCondition
on_action action resource = record { action = some action; resource = resource; expression = none }

abbrev asks_first : PolicyEffect
asks_first = record (plain true) { requires_approval = true }

abbrev limited : PolicyEffect
limited = record (plain true) { max_calls_per_minute = some (pos 5) }

abbrev mail_rules : List PolicyRule
mail_rules =
    record {
      type = Rules.allow;
      condition = on_action "send" none;
      effect = plain true;
      priority = pos 1;
    }
    ∷ record {
      type = require_approval;
      condition = on_action "send" none;
      effect = asks_first;
      priority = pos 20;
    }
    ∷ []

abbrev policy_of : List PolicyRule → ToolPolicy
policy_of rules = record { tool_name = "mail"; rules = rules; default_effect = plain false }

abbrev grant_of : List PolicyRule → ToolGrant
grant_of rules = record {
  id = 1;
  updated_at = 0;
  agent_version_id = 3;
  tool_name = "mail";
  policy = policy_of rules;
  is_active = true;
}

abbrev send_mail : ToolCall
send_mail = record {
  tool_name = "mail";
  action = "send";
  input_data = null;
  resource = none;
  context = null;
}

abbrev idle : World
idle = record {
  run = new_run;
  approvals = record { rows = []; notices = [] };
  handled = [];
  counted = [];
}

evaluate_highest_example :
    ((x : PolicyRule) × IsFirstHighest (rule_matches no_cel "send" none null) mail_rules x
      × (Evaluator.evaluate no_cel 0 (policy_of mail_rules) "send" none null
          ≡ apply_effect 0 x.effect (some x)))
    ⊎ (All (λ r. rule_matches no_cel "send" none null r ≡ false) mail_rules
        × (Evaluator.evaluate no_cel 0 (policy_of mail_rules) "send" none null
            ≡ apply_effect 0 (plain false) none))
evaluate_highest_example = evaluate_highest no_cel 0 (policy_of mail_rules) "send" none null

abbrev one_minute : RateLimitInfo
one_minute = record { limit = pos 5; remaining = pos 5; reset_at = 60000000; scope = "minute" }

grant-IsConsistent_example :
    IsConsistent (Grant.evaluate no_cel 0 (grant_of mail_rules) "send" none null)
    × ((((Grant.evaluate no_cel 0 (grant_of mail_rules) "send" none null).allowed
            || (Grant.evaluate no_cel 0 (grant_of mail_rules) "send" none null).requires_approval)
          && false)
        ≡ false)
grant-IsConsistent_example = grant-IsConsistent no_cel 0 (grant_of mail_rules) "send" none null

execute_tool-handled_example :
    (execute_tool unlimited no_cel 9 0 1 2 3 (some (grant_of mail_rules)) send_mail idle).1.handled
    ≡ []
unfolding Grant.evaluate Evaluator.evaluate Evaluator.sort_rules matches_condition apply_effect
    build_rate_limit
execute_tool-handled_example =
    execute_tool-handled unlimited no_cel 9 0 1 2 3 (some (grant_of mail_rules)) send_mail idle

denied_runs_example :
    (execute_tool unlimited no_cel 9 0 1 2 3 (some (grant_of [])) send_mail idle
      ≡ (ok (execute_tool_handler send_mail idle).0, (execute_tool_handler send_mail idle).1))
    × ((execute_tool_handler send_mail idle).0.success ≡ true)
    × ((execute_tool_handler send_mail idle).1.handled ≡ ("mail", "send") ∷ [])
unfolding Grant.evaluate Evaluator.evaluate Evaluator.sort_rules apply_effect
denied_runs_example = denied_runs unlimited no_cel 9 0 1 2 3 (grant_of []) send_mail idle refl refl

approval_raises_example :
    (succeeded
        (execute_tool unlimited no_cel 9 0 1 2 3 (some (grant_of mail_rules)) send_mail idle).0
      ≡ false)
    × ((execute_tool unlimited no_cel 9 0 1 2 3
          (some (grant_of mail_rules))
          send_mail
          idle).1.handled
        ≡ [])
    × ((execute_tool unlimited no_cel 9 0 1 2 3
          (some (grant_of mail_rules))
          send_mail
          idle).1.counted
        ≡ [])
unfolding Grant.evaluate Evaluator.evaluate Evaluator.sort_rules matches_condition apply_effect
    build_rate_limit
approval_raises_example =
    approval_raises unlimited no_cel 9 0 1 2 3 (grant_of mail_rules) send_mail idle refl refl

abbrev legacy : LegacyPolicy
legacy = record {
  allowed_actions = "send" ∷ [];
  allowed_resources = "boss" ∷ [];
  allow_by_default = none;
}

abbrev legacy_grant : ToolGrant
legacy_grant = record {
  id = 1;
  updated_at = 0;
  agent_version_id = 3;
  tool_name = "mail";
  policy = record {
    tool_name = "mail";
    rules = Grant.legacy_rule "send" ∷ [];
    default_effect = plain false;
  };
  is_active = true;
}

legacy-allows_example : allows no_cel 0 legacy_grant "delete" none null ≡ false
unfolding from_legacy_dict Grant.create
legacy-allows_example = legacy-allows no_cel "delete" none null 1 0 3 "mail" legacy true refl
