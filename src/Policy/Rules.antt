-- ===== src/Policy/Rules.antt =====
-- The data of app/domain/value_objects/policy.py.
use aiagent_x.Common.{ℕ, ◌+◌, String, Bool, Option, List, leb}
use aiagent_x.Common.Int.{ℤ, pos_part, neg_part}

pub data PolicyType : Type 0 where
  allow deny require_approval rate_limit conditional : PolicyType

pub record PolicyCondition : Type 0 where
  pub action : Option String
  pub resource : Option String
  pub expression : Option String

pub record PolicyEffect : Type 0 where
  pub allow : Bool
  pub requires_approval : Bool
  pub max_calls_per_minute : Option ℤ
  pub max_calls_per_hour : Option ℤ
  pub max_calls_per_day : Option ℤ

pub record PolicyRule : Type 0 where
  pub type : PolicyType
  pub condition : PolicyCondition
  pub effect : PolicyEffect
  pub priority : ℤ

pub record ToolPolicy : Type 0 where
  pub tool_name : String
  pub rules : List PolicyRule
  pub default_effect : PolicyEffect

pub record RateLimitInfo : Type 0 where
  pub limit : ℤ
  pub remaining : ℤ
  pub reset_at : ℕ
  pub scope : String

pub record PolicyDecision : Type 0 where
  pub allowed : Bool
  pub requires_approval : Bool
  pub reason : String
  pub matched_rule : Option PolicyRule
  pub rate_limit : Option RateLimitInfo

abbrev pub le_ℤ : ℤ → ℤ → Bool
le_ℤ a b = leb (pos_part a + neg_part b) (pos_part b + neg_part a)
