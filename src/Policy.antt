-- ===== src/Policy.antt =====
-- Tool policies (app/domain/value_objects/policy.py) and the grants that hold them
-- (app/domain/entities/tool_grant.py).
pub mod Glob
pub mod Rules
pub mod Evaluator
pub mod Grant
pub mod Priority
pub mod Effects
pub mod Legacy
