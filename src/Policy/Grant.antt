-- ===== src/Policy/Grant.antt =====
-- `ToolGrant` (app/domain/entities/tool_grant.py).
use aiagent_x.Common.{
  ℕ, String, Bool, true, false, Option, none, some, List, [], ◌∷◌, map, Result, ok, raise, not,
  ◌||◌, if◌then◌else◌,
}
use aiagent_x.Common.Int.{pos}
use aiagent_x.Common.Text.{is_empty, is_blank}
use aiagent_x.Common.Value.{Value}
use aiagent_x.Policy.Rules
use aiagent_x.Policy.Rules.{PolicyEffect, PolicyRule, ToolPolicy, PolicyDecision}
use aiagent_x.Policy.Evaluator

pub data GrantError : Type 0 where
  empty_tool_name : GrantError

pub record ToolGrant : Type 0 where
  pub id : ℕ
  pub updated_at : ℕ
  pub agent_version_id : ℕ
  pub tool_name : String
  pub policy : ToolPolicy
  pub is_active : Bool

-- `ToolGrant(…)` with `__post_init__`; a policy of another type has no counterpart here.
unfoldable pub create :
    (id now agent_version_id : ℕ) → String → ToolPolicy → Bool → Result GrantError ToolGrant
create id now agent_version_id tool_name policy is_active =
    if is_empty tool_name || is_blank tool_name
    then raise empty_tool_name
    else ok (record {
      id = id;
      updated_at = now;
      agent_version_id = agent_version_id;
      tool_name = tool_name;
      policy = policy;
      is_active = is_active;
    })

unfoldable pub update_policy : ℕ → ToolPolicy → ToolGrant → ToolGrant
update_policy now policy g = record g { policy = policy; updated_at = now }

module _ (cel : String → Value → Option Bool) where
  unfoldable pub evaluate : ℕ → ToolGrant → String → Option String → Value → PolicyDecision
  evaluate now g action resource context =
      if not g.is_active
      then record {
        allowed = false;
        requires_approval = false;
        reason = "Grant is inactive";
        matched_rule = none;
        rate_limit = none;
      }
      else Evaluator.evaluate cel now g.policy action resource context

  unfoldable pub allows : ℕ → ToolGrant → String → Option String → Value → Bool
  unfolding evaluate
  allows now g action resource context = (evaluate now g action resource context).allowed

-- The entries of a legacy policy that are read; `allowed_resources` is read and not used.
pub record LegacyPolicy : Type 0 where
  pub allowed_actions : List String
  pub allowed_resources : List String
  pub allow_by_default : Option Bool

abbrev pub plain : Bool → PolicyEffect
plain allow = record {
  allow = allow;
  requires_approval = false;
  max_calls_per_minute = none;
  max_calls_per_hour = none;
  max_calls_per_day = none;
}

abbrev pub legacy_rule : String → PolicyRule
legacy_rule action = record {
  type = Rules.allow;
  condition = record { action = some action; resource = none; expression = none };
  effect = plain true;
  priority = pos 10;
}

abbrev pub default_allow : LegacyPolicy → Bool
default_allow p = elim p.allow_by_default [
  | some b ↦ b
  | none ↦ elim p.allowed_actions [ [] ↦ true | _ ∷ _ ↦ false ]
]

unfoldable pub from_legacy_dict :
    (id now agent_version_id : ℕ) → String → LegacyPolicy → Bool → Result GrantError ToolGrant
from_legacy_dict id now agent_version_id tool_name p is_active =
    create id now agent_version_id tool_name
      (record {
        tool_name = tool_name;
        rules = map legacy_rule p.allowed_actions;
        default_effect = plain (default_allow p);
      })
      is_active
