-- ===== src/Run/Steps.antt =====
-- `RunStep` (app/domain/entities/run.py): a step starts, then completes or fails.
use aiagent_x.Common.{ℕ, String, some, [], ◌∷◌, M, modify, raise_if, ◌>>◌, not}
use aiagent_x.Common.Value.{Value}
use aiagent_x.RunState.{queued, running, succeeded, failed, state_eq, state_in}
use aiagent_x.Run.Data.{
  RunStep, RunError, cannot_start_step, cannot_complete_step, cannot_fail_step,
}

module _ (now : ℕ) where
  unfoldable pub start : M RunStep RunError (Unit {0})
  start s =
      (do
        raise_if (not (state_eq s.state queued)) (cannot_start_step s.state)
        modify (λ t. record t { state = running; updated_at = now }))
        s

  unfoldable pub complete : Value → M RunStep RunError (Unit {0})
  complete output s =
      (do
        raise_if (not (state_eq s.state running)) (cannot_complete_step s.state)
        modify (λ t. record t { state = succeeded; output_data = some output; updated_at = now }))
        s

  unfoldable pub fail : String → M RunStep RunError (Unit {0})
  fail error s =
      (do
        raise_if (not (state_in s.state (queued ∷ running ∷ []))) (cannot_fail_step s.state)
        modify (λ t. record t { state = failed; error = some error; updated_at = now }))
        s
