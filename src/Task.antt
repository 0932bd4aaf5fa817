-- ===== src/Task.antt =====
-- The task framework (services/distributedhardwarefwkservice/src/task).
pub mod Types
pub mod Board
pub mod Executor
pub mod Factory
pub mod Handlers
pub mod Flows
pub mod Heap
pub mod Awaiting
pub mod Reporting
pub mod Sound
pub mod Making
pub mod Ending
pub mod Fathers
pub mod Threads
pub mod Invariant
pub mod Resumes
pub mod Outcomes
pub mod Creation
pub mod Phases
pub mod Offline
pub mod Dropped
mod Examples
mod Scenario
