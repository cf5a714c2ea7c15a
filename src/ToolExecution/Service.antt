-- ===== src/ToolExecution/Service.antt =====
-- app/application/services/tool_execution_service.py. The rate limiter is an interface there: its
-- answer is the parameter `within_limit`, and what it is asked to count is kept in the world, as
-- are the calls of the tool handler, which returns a fixed answer.
use aiagent_x.Common.{
  ℕ, String, Bool, true, false, Option, none, some, List, [], ◌∷◌, ◌++◌, M, ok, raise,
  if◌then◌else◌,
}
use aiagent_x.Common.Int.{ℤ}
use aiagent_x.Common.Value.{Value, text, dict, field, end}
use aiagent_x.Policy.Rules.{PolicyDecision, RateLimitInfo}
use aiagent_x.Policy.Grant
use aiagent_x.Policy.Grant.{ToolGrant}
use aiagent_x.Approval.Request.{ApprovalError, tool_execution}
use aiagent_x.Approval.Coordinator
use aiagent_x.Run.Data.{Run, RunError}
use aiagent_x.Run.Methods

-- The class declares a field and a class method of one name, `awaiting_approval`. The method is the
-- field's default, and counts as true; the slot then hides it, so that to call it is a TypeError.
pub record ToolExecutionResult : Type 0 where
  pub success : Bool
  pub output : Option Value
  pub reason : String
  pub awaiting_approval : Bool
  pub approval_id : Option ℕ
  pub rate_limit_info : Option RateLimitInfo

abbrev pub awaiting_by_default : Bool
awaiting_by_default = true

unfoldable pub allowed : Value → ToolExecutionResult
allowed output = record {
  success = true;
  output = some output;
  reason = "";
  awaiting_approval = awaiting_by_default;
  approval_id = none;
  rate_limit_info = none;
}

unfoldable pub denied : String → ToolExecutionResult
denied reason = record {
  success = false;
  output = none;
  reason = reason;
  awaiting_approval = awaiting_by_default;
  approval_id = none;
  rate_limit_info = none;
}

unfoldable pub rate_limited : RateLimitInfo → ToolExecutionResult
rate_limited info = record {
  success = false;
  output = none;
  reason = "Rate limit exceeded";
  awaiting_approval = awaiting_by_default;
  approval_id = none;
  rate_limit_info = some info;
}

pub data ToolError : Type 0 where
  type_error : ToolError
  approval_error : ApprovalError → ToolError
  run_error : RunError → ToolError

-- f"tool:{tool_name}:{action}:{run.tenant_id}".
pub record RateKey : Type 0 where
  pub tool_name : String
  pub action : String
  pub tenant_id : ℕ

pub record World : Type 0 where
  pub run : Run
  pub approvals : Coordinator.World
  pub handled : List (String × String)
  pub counted : List (RateKey × String)

-- What a call is about.
pub record ToolCall : Type 0 where
  pub tool_name : String
  pub action : String
  pub input_data : Value
  pub resource : Option String
  pub context : Value

abbrev pub key_of : ToolCall → World → RateKey
key_of c w = record { tool_name = c.tool_name; action = c.action; tenant_id = w.run.tenant_id }

-- `_execute_tool_handler`.
unfoldable pub execute_tool_handler : ToolCall → World → ToolExecutionResult × World
unfolding allowed
execute_tool_handler c w = (
  allowed (
      dict (
        field "result" (text "success")
          (field "tool" (text c.tool_name) (field "action" (text c.action) end)))),
  record w { handled = w.handled ++ (c.tool_name, c.action) ∷ [] },
)

abbrev count_call : ToolCall → Option RateLimitInfo → World → World
count_call c none w = w
count_call c (some info) w = record w { counted = w.counted ++ (key_of c w, info.scope) ∷ [] }

-- Steps 5 and 6: the handler, and then the counter.
unfoldable pub run_tool : ToolCall → PolicyDecision → M World ToolError ToolExecutionResult
unfolding execute_tool_handler
run_tool c d w =
    let (result, w') = execute_tool_handler c w in (ok result, count_call c d.rate_limit w')

-- Step 4: the request is stored, the run waits, and then the result's class method is called. A run
-- has no attribute `steps`, so the step's sequence is 0.
unfoldable pub ask_approval :
    (id now₁ now₂ now₃ : ℕ) → ToolCall → PolicyDecision → M World ToolError ToolExecutionResult
ask_approval id now₁ now₂ now₃ c d w =
    let (stored, approvals) =
      Coordinator.request_approval id now₁ now₂ w.run.id 0 c.tool_name c.action c.resource
        c.input_data d.reason "executor" 3600 tool_execution w.approvals in
    let w' = record w { approvals = approvals } in
    elim stored [
      | raise e ↦ (raise (approval_error e), w')
      | ok _ ↦
          let (waits, run) = Methods.request_approval now₃ w.run in
          let w'' = record w' { run = run } in
          elim waits [ raise e ↦ (raise (run_error e), w'') | ok _ ↦ (raise type_error, w'') ]
    ]

module _ (within_limit : RateKey → ℤ → String → Bool) where
  abbrev pub is_within : ToolCall → Option RateLimitInfo → World → Bool
  is_within c none w = true
  is_within c (some info) w = within_limit (key_of c w) info.limit info.scope

  abbrev limited_result : Option RateLimitInfo → ToolExecutionResult
  limited_result none = denied ""
  limited_result (some info) = rate_limited info

  unfoldable pub decided :
      (id now₁ now₂ now₃ : ℕ) → ToolCall → PolicyDecision → M World ToolError ToolExecutionResult
  unfolding run_tool ask_approval denied rate_limited
  decided id now₁ now₂ now₃ c d w =
      if is_within c d.rate_limit w
      then (if d.requires_approval then ask_approval id now₁ now₂ now₃ c d w else run_tool c d w)
      else (ok (limited_result d.rate_limit), w)

  unfoldable pub execute_tool :
      (cel : String → Value → Option Bool)
      → (id now now₁ now₂ now₃ : ℕ) → Option ToolGrant
      → ToolCall
      → M World ToolError ToolExecutionResult
  unfolding decided denied
  execute_tool cel id now now₁ now₂ now₃ none c w = (ok (denied "No grant found for tool"), w)
  execute_tool cel id now now₁ now₂ now₃ (some g) c w =
      decided id now₁ now₂ now₃ c (Grant.evaluate cel now g c.action c.resource c.context) w
