-- ===== src/Commit.antt =====
-- The commit coordinator: packages/kernel/src/commit/coordinator.ts, types.ts, errors.ts. Data has
-- its state, Operations the parts of `accept` before and after the sink is awaited.
pub mod Data
pub mod Operations
pub mod Invariant
pub mod Once
pub mod Duplicates
pub mod Denied
pub mod Tests
