-- ===== src/Tests/Approvals.antt =====
-- One request for approval, answered, and the calls of tools that need one
-- (app/domain/services/approval_coordinator.py, app/application/services/tool_execution_service.py).
use aiagent_x.Common.{List, ◌≡◌, ◌⊎◌, refl, true, false, none, [], ◌∷◌, succeeded}
use aiagent_x.Common.Value.{null}
use aiagent_x.Approval.Request.{fresh, approved, denied, tool_execution, ApprovalRequest}
use aiagent_x.Approval.Request
use aiagent_x.Approval.Table
use aiagent_x.Approval.Coordinator.{World, respond_to_approval}
use aiagent_x.Approval.Decisions.{Call, apply, apply_all, state_at}
use aiagent_x.Approval.History.{never_stale, decided_once}
use aiagent_x.Approval.InTime.{writes_approved, approves_in_time, is_approved, approved_in_time}

-- A request of id 4 at the time 0, with an hour to answer it.
abbrev asked : World
asked = record {
  rows = fresh 4 0 0 1 0 tool_execution "mail" "send" none null "policy" "executor" 3600 ∷ [];
  notices = [];
}

abbrev refused : World
refused = record asked {
  rows =
      record (fresh 4 0 0 1 0 tool_execution "mail" "send" none null "policy" "executor" 3600) {
        state = denied;
      }
      ∷ [];
}

abbrev approve : Call
approve = Call.respond 1 2 3 4 4 true "ann" none none

-- The request is written again as its run's caller holds it, approved.
abbrev later : List Call
later =
    Call.expire_old 9
    ∷ Call.update 9
        (record (fresh 4 0 0 1 0 tool_execution "mail" "send" none null "policy" "executor" 3600) {
          state = approved;
        })
    ∷ []

decided_once_example :
    succeeded
      (respond_to_approval 10 11 12 13 4 false "bob" none none
        (apply_all later (respond_to_approval 1 2 3 4 4 true "ann" none none asked).1)).0
    ≡ false
unfolding respond_to_approval Table.get Request.approve Request.is_expired Table.update never_stale
decided_once_example =
    decided_once 1 2 3 4 4 true "ann" none none asked refl later refl 10 11 12 13 false "bob" none
      none

approved_in_time_example :
    (is_approved (state_at 4 asked) ≡ true)
    ⊎ ((approves_in_time approve 4 asked ≡ true) ⊎ (writes_approved approve 4 ≡ true))
unfolding apply respond_to_approval Table.get Request.approve Request.is_expired Table.update
approved_in_time_example = approved_in_time approve 4 asked refl
