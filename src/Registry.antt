-- ===== src/Registry.antt =====
-- The stores of runs and of agents: packages/kernel/src/run/registry.ts and agent/registry.ts.
-- A snapshot is a frozen copy, so it is the record itself.
pub mod Runs
pub mod Agents
