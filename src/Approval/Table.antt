-- ===== src/Approval/Table.antt =====
-- `SQLApprovalRepository` (app/infrastructure/db/repositories/security.py) and the conversions of
-- app/infrastructure/db/models/approval.py. The table is the list of its rows; its primary key is
-- the request's id, and a row holds no events. `tenant_of` is the join with the runs' table.
use aiagent_x.Common.{
  ℕ, suc, Bool, true, false, Option, none, some, List, [], ◌∷◌, ◌++◌, M, ok, raise, find, is_some,
  ltb, ◌==◌, ◌&&◌, if◌then◌else◌,
}
use aiagent_x.Approval.Request.{
  ApprovalRequest, ApprovalError, pending, expired, state_eq, no_row, duplicate_id,
}

-- `from_entity` and `to_entity` copy every field but the events, of which a new entity has none.
unfoldable pub row_of : ApprovalRequest → ApprovalRequest
row_of q = record q { events = [] }

abbrev pub has_id : ℕ → ApprovalRequest → Bool
has_id i q = q.id == i

unfoldable pub get : ℕ → List ApprovalRequest → Option ApprovalRequest
get i rows = find (has_id i) rows

-- `update_from_entity`.
unfoldable pub assign : ℕ → ApprovalRequest → ApprovalRequest → ApprovalRequest
assign now q row = record row {
  state = q.state;
  approved_by = q.approved_by;
  approved_at = q.approved_at;
  denial_reason = q.denial_reason;
  response_data = q.response_data;
  updated_at = now;
}

unfoldable pub put : ℕ → ApprovalRequest → List ApprovalRequest → List ApprovalRequest
unfolding assign
put now q [] = []
put now q (row ∷ rows) = if has_id q.id row then assign now q row ∷ rows else row ∷ put now q rows

unfoldable pub add : ApprovalRequest → M (List ApprovalRequest) ApprovalError (Unit {0})
unfolding row_of
add q rows =
    if is_some (find (has_id q.id) rows)
    then (raise duplicate_id, rows)
    else (ok tt, rows ++ row_of q ∷ [])

-- `scalar_one` raises where there is no row.
unfoldable pub update : ℕ → ApprovalRequest → M (List ApprovalRequest) ApprovalError (Unit {0})
unfolding put
update now q rows =
    if is_some (find (has_id q.id) rows) then (ok tt, put now q rows) else (raise no_row, rows)

abbrev is_listed : (ℕ → ℕ) → ℕ → Option ℕ → ApprovalRequest → Bool
is_listed tenant_of tenant run q =
    tenant_of q.run_id == tenant
    && state_eq q.state pending
    && elim run [ none ↦ true | some i ↦ q.run_id == i ]

unfoldable pub get_pending : (ℕ → ℕ) → ℕ → Option ℕ → List ApprovalRequest → List ApprovalRequest
get_pending tenant_of tenant run [] = []
get_pending tenant_of tenant run (q ∷ rows) =
    let rest = get_pending tenant_of tenant run rows in
    if is_listed tenant_of tenant run q then q ∷ rest else rest

-- A comparison with a missing time is not true in SQL.
unfoldable pub is_old : ℕ → ApprovalRequest → Bool
is_old now q = state_eq q.state pending && elim q.expires_at [ none ↦ false | some t ↦ ltb t now ]

unfoldable pub expire_old : ℕ → List ApprovalRequest → ℕ × List ApprovalRequest
unfolding is_old
expire_old now [] = (0, [])
expire_old now (q ∷ rows) =
    let (n, rest) = expire_old now rows in
    if is_old now q then (suc n, record q { state = expired } ∷ rest) else (n, q ∷ rest)
