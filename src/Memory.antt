-- ===== src/Memory.antt =====
-- The working memory of goals, app/memory.
pub mod Goal
pub mod GoalStack
pub mod SessionContext
pub mod Ifom
mod Tests
