-- ===== src/Publish.antt =====
-- The worker that publishes comments from the outbox: apps/api/src/publish.
pub mod Error
pub mod Classify
pub mod Data
pub mod Worker
pub mod Attempt
pub mod Ended
pub mod Turns
pub mod Rounds
pub mod Limits
pub mod Tests
