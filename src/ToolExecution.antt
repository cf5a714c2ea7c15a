-- ===== src/ToolExecution.antt =====
-- `ToolExecutionService` (app/application/services/tool_execution_service.py): a tool call behind a
-- grant, its policy, a rate limit and an approval.
pub mod Service
pub mod Checks
