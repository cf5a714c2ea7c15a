-- ===== src/Run/Calls.antt =====
-- Any sequence of method calls on a run, by a caller who may catch what they raise.
use aiagent_x.Common.{ℕ, String, Option, List, [], ◌∷◌, ◌++◌}
use aiagent_x.Common.Int.{ℤ}
use aiagent_x.Common.Value.{Value}
use aiagent_x.Money.{Money, TokenUsage}
use aiagent_x.RunState.{RunStepKind}
use aiagent_x.Run.Data
use aiagent_x.Run.Data.{Run, RunEvent}
use aiagent_x.Run.Methods

pub data Call : Type 0 where
  start : (now₁ now₂ now₃ : ℕ) → String → ℕ → Call
  request_approval resume_from_approval schedule_retry requeue timeout : ℕ → Call
  complete : ℕ → Value → Call
  fail : ℕ → String → Option ℕ → Call
  cancel : (now₁ now₂ : ℕ) → Option String → Call
  renew_lease : (now₁ now₂ now₃ : ℕ) → String → ℕ → Call
  add_step : (id now : ℕ) → ℤ → RunStepKind → Option Value → Call
  record_cost : ℕ → Money → Call
  record_token_usage : ℕ → TokenUsage → Call
  collect_events : Call

-- The events that a call hands out.
unfoldable pub published : Call → Run → List RunEvent
unfolding Data.collect_events
published collect_events r = (Data.collect_events r).0
published c r = []

-- The run that a call leaves behind, whether it returned or raised.
unfoldable pub apply : Call → Run → Run
apply (start now₁ now₂ now₃ owner duration) r = (Methods.start now₁ now₂ now₃ owner duration r).1
apply (request_approval now) r = (Methods.request_approval now r).1
apply (resume_from_approval now) r = (Methods.resume_from_approval now r).1
apply (schedule_retry now) r = (Methods.schedule_retry now r).1
apply (requeue now) r = (Methods.requeue now r).1
apply (timeout now) r = (Methods.timeout now r).1
apply (complete now output) r = (Methods.complete now output r).1
apply (fail now error failed_step) r = (Methods.fail now error failed_step r).1
apply (cancel now₁ now₂ reason) r = (Methods.cancel now₁ now₂ reason r).1
apply (renew_lease now₁ now₂ now₃ owner duration) r =
    (Methods.renew_lease now₁ now₂ now₃ owner duration r).1
apply (add_step id now sequence kind input_data) r =
    (Methods.add_step id now sequence kind input_data r).1
apply (record_cost now cost) r = (Methods.record_cost now cost r).1
apply (record_token_usage now usage) r = (Methods.record_token_usage now usage r).1
apply collect_events r = (Data.collect_events r).1

unfoldable pub apply_all : List Call → Run → Run
apply_all [] r = r
apply_all (c ∷ calls) r = apply_all calls (apply c r)

-- The events that a sequence of calls hands out, in order.
unfoldable pub collected : List Call → Run → List RunEvent
unfolding published apply
collected [] r = []
collected (c ∷ calls) r = published c r ++ collected calls (apply c r)
