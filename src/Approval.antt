-- ===== src/Approval.antt =====
-- Human approval of a run's actions: the request (app/domain/entities/approval_request.py), its
-- table (app/infrastructure/db/repositories/security.py), and the coordinator over both
-- (app/domain/services/approval_coordinator.py).
pub mod Request
pub mod Table
pub mod Coordinator
pub mod Decisions
pub mod History
pub mod InTime
