-- ===== src/Broker.antt =====
-- The capability broker: packages/kernel/src/capability/broker.ts, events.ts, handle.ts. Data has its
-- state and requests, Checks the tests of an authorisation, Operations the methods. The library
-- `minimatch` is a parameter; random handles and ids are arguments.
pub mod Data
pub mod Checks
pub mod Operations
pub mod Grant
pub mod Decisions
pub mod Calls
pub mod Revocation
pub mod Issue
pub mod Accounts
pub mod Allows
pub mod Tests
