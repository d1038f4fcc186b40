-- ===== src/Jobs.antt =====
-- The queue of review jobs and its outbox of comments to publish: apps/api/src/jobQueue.ts.
pub mod Data
pub mod Clip
pub mod Operations
pub mod Outbox
pub mod Lease
pub mod Calls
pub mod Items
pub mod Status
pub mod Moves
pub mod Kept
pub mod Fencing
pub mod Once
pub mod Protocol
pub mod Invariant
pub mod JobSteps
pub mod OutboxSteps
pub mod ClaimSteps
pub mod Claims
pub mod Room
pub mod Settled
pub mod Served
pub mod Progress
pub mod History
pub mod Deliveries
pub mod Webhooks
pub mod Left
pub mod Started
pub mod Queued
pub mod Tests
