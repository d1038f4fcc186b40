-- ===== src/Scheduler.antt =====
-- The scheduler: packages/kernel/src/scheduler/. Its data and events are in Data, the steps that
-- its operations share in Core, the operations on runs in Runs and those on agents in Agents, the
-- choice of the next agent in Admit, the cancellation of a subtree in Tree.
pub mod Data
pub mod Core
pub mod Runs
pub mod Agents
pub mod Admit
pub mod Moved
pub mod Shapes
pub mod Steps
pub mod Reach
pub mod Settled
pub mod Tree
pub mod Register
pub mod Deadline
pub mod Admission
pub mod Calls
pub mod RunSteps
pub mod TreeSteps
pub mod System
pub mod History
pub mod Atomic
pub mod Tests
pub mod Best
pub mod CancelRun
