-- ===== src/Tests.antt =====
-- Concrete runs of each part of the program, and the theorems applied to them.
mod Runs
mod Approvals
mod Policies
mod Agents
mod Providers
mod Budgets
mod Storage
mod Sessions
mod Services
mod Texts
mod Memories
