-- ===== src/BasalGanglia.antt =====
-- app/basal_ganglia: the advisor that scores how much compute a request deserves.
pub mod Models
pub mod Policy
pub mod Advisor
pub mod Choice
pub mod Evaluation
mod Tests
