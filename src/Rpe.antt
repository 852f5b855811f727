-- ===== src/Rpe.antt =====
-- app/rpe: learned routing weights, by category and difficulty: their stores, and how one is learned.
pub mod Cell
pub mod WeightStore
pub mod DifficultyStore
pub mod PresetStore
pub mod Proposal
pub mod Reward
pub mod Mutator
pub mod Selection
pub mod Service
pub mod RecentCounter
pub mod Ttl
pub mod DryRun
mod Tests
mod StoreTests
