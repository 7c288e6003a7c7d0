-- ===== src/Safety.antt =====
-- app/safety: the risk policy, the approval gate and the approval store.
pub mod Policy
pub mod Gate
pub mod World
pub mod Keeps
pub mod Approvals
