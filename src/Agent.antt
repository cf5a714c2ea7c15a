-- ===== src/Agent.antt =====
-- Agents and their versions (app/domain/entities/agent.py).
pub mod Version
pub mod Aggregate
pub mod Published
pub mod Frozen
