-- ===== src/Routing.antt =====
-- Layer 2 of the runtime, app/routing: how a request gets its path.
pub mod Task
pub mod SkipRouter
pub mod Override
pub mod Ratchet
pub mod Decay
pub mod Gate
pub mod LocusCoeruleus
pub mod Neuromodulators
pub mod Crossroad
pub mod Continuation
pub mod Pipeline
mod Tests
mod OrganTests
