-- ===== src/Run.antt =====
-- app/domain/entities/run.py: the run aggregate, its steps and its events. A method is a state
-- transformer over the run (`M`): what it assigned before it raised stays assigned. Each argument
-- `now…` is one reading of `datetime.now(UTC)`, in microseconds.
pub mod Data
pub mod Table
pub mod Steps
pub mod Methods
pub mod Calls
pub mod Bounds
pub mod Lifecycle
pub mod Log
pub mod Lease
pub mod UseCases
pub mod Stored
pub mod Created
