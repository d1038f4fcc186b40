-- ===== src/Context.antt =====
-- The virtual context memory: packages/kernel/src/context/. Data has the state, WorkingSet the order
-- and the projection of an image, Operations the methods of the manager, Images the registry of images
-- with its tables as objects of the heap. The hash of a text is a parameter; ids that are drawn are
-- arguments.
pub mod Data
pub mod WorkingSet
pub mod Operations
pub mod Calls
pub mod Changes
pub mod Invariant
pub mod Residency
pub mod Images
pub mod Tables
pub mod Isolation
pub mod Compare
pub mod Order
pub mod Projection
pub mod Tests
