-- ===== src/ToolExecution/Checks.antt =====
-- When a tool runs, and what an approval does (tool_execution_service.py).
use aiagent_x.Common.{
  ℕ, ◌≡◌, refl, String, Bool, true, false, Option, none, some, [], ◌∷◌, ◌++◌, arith, ok,
  if◌then◌else◌, ◌&&◌, not, succeeded,
}
use aiagent_x.Common.Int.{ℤ}
use aiagent_x.Common.Value.{Value}
use aiagent_x.Policy.Rules.{PolicyDecision}
use aiagent_x.Policy.Grant
use aiagent_x.Policy.Grant.{ToolGrant}
use aiagent_x.Policy.Effects.{no_rate_limit}
use aiagent_x.RunState.{awaiting_approval}
use aiagent_x.Run.Data.{touch, add_event}
use aiagent_x.Run.Methods
use aiagent_x.Run.Lifecycle.{transition_lem}
use aiagent_x.ToolExecution.Service.{
  World, ToolCall, RateKey, execute_tool, execute_tool_handler, decided, run_tool, ask_approval,
  is_within,
}

-- The decision of a grant, if there is one.
abbrev pub runs_tool :
    (RateKey → ℤ → String → Bool) → Option PolicyDecision → ToolCall → World → Bool
runs_tool within none c w = false
runs_tool within (some d) c w = is_within within c d.rate_limit w && not d.requires_approval

ask_approval_lem :
    (id now₁ now₂ now₃ : ℕ) (c : ToolCall) (d : PolicyDecision) (w : World)
    → let after = ask_approval id now₁ now₂ now₃ c d w in
      (succeeded after.0 ≡ false) × (after.1.handled ≡ w.handled) × (after.1.counted ≡ w.counted)
unfolding ask_approval Methods.request_approval add_event touch
ask_approval_lem id now₁ now₂ now₃ c d w =
    ground (arith, transition_lem now₃ awaiting_approval none w.run)

module _ (within : RateKey → ℤ → String → Bool) (cel : String → Value → Option Bool) where
  abbrev decision_of : ℕ → Option ToolGrant → ToolCall → Option PolicyDecision
  decision_of now none c = none
  decision_of now (some g) c = some (Grant.evaluate cel now g c.action c.resource c.context)

  decided-handled :
      (id now₁ now₂ now₃ : ℕ) (c : ToolCall) (d : PolicyDecision) (w : World)
      → (decided within id now₁ now₂ now₃ c d w).1.handled ≡ (
          if runs_tool within (some d) c w
          then w.handled ++ (c.tool_name, c.action) ∷ []
          else w.handled)
  unfolding decided
  decided-handled id now₁ now₂ now₃ c d w = ground arith

  -- The handler runs exactly if there is a grant, the call is within the rate limit of the decision
  -- and the decision asks for no approval, and then once. The decision's `allowed` is not looked at.
  pub execute_tool-handled :
      (id now now₁ now₂ now₃ : ℕ) (g : Option ToolGrant) (c : ToolCall) (w : World)
      → (execute_tool within cel id now now₁ now₂ now₃ g c w).1.handled ≡ (
          if runs_tool within (decision_of now g c) c w
          then w.handled ++ (c.tool_name, c.action) ∷ []
          else w.handled)
  unfolding execute_tool
  execute_tool-handled id now now₁ now₂ now₃ none c w = refl
  execute_tool-handled id now now₁ now₂ now₃ (some g) c w =
      decided-handled id now₁ now₂ now₃ c (Grant.evaluate cel now g c.action c.resource c.context) w

  -- Where a grant's decision is to deny (not allowed, and no approval asked for), the tool runs all
  -- the same, and the caller is told of success.
  pub denied_runs :
      (id now now₁ now₂ now₃ : ℕ) (g : ToolGrant) (c : ToolCall) (w : World)
      → (Grant.evaluate cel now g c.action c.resource c.context).allowed ≡ false
      → (Grant.evaluate cel now g c.action c.resource c.context).requires_approval ≡ false
      → let (result, after) = execute_tool_handler c w in
        (execute_tool within cel id now now₁ now₂ now₃ (some g) c w ≡ (ok result, after))
        × (result.success ≡ true)
        × (after.handled ≡ w.handled ++ (c.tool_name, c.action) ∷ [])
  unfolding execute_tool
  denied_runs id now now₁ now₂ now₃ g c w a b =
      let none' = no_rate_limit cel now g c.action c.resource c.context a b in
      (rw (none', decided) (rw (b, run_tool) refl), refl, refl)

  -- A call that needs approval and is within its rate limit raises; the tool is not run, and nothing
  -- is counted against a limit.
  pub approval_raises :
      (id now now₁ now₂ now₃ : ℕ) (g : ToolGrant) (c : ToolCall) (w : World)
      → (Grant.evaluate cel now g c.action c.resource c.context).requires_approval ≡ true
      → is_within within c (Grant.evaluate cel now g c.action c.resource c.context).rate_limit w
        ≡ true
      → let after = execute_tool within cel id now now₁ now₂ now₃ (some g) c w in
        (succeeded after.0 ≡ false) × (after.1.handled ≡ w.handled) × (after.1.counted ≡ w.counted)
  unfolding execute_tool
  approval_raises id now now₁ now₂ now₃ g c w a b =
      let d = Grant.evaluate cel now g c.action c.resource c.context in
      rw (b, decided) (rw a (ask_approval_lem id now₁ now₂ now₃ c d w))
