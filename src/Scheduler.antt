-- ===== src/Scheduler.antt =====
-- recon/core/scheduler.py: the choice of a dispatch batch from ranked decisions.
pub mod Batch
pub mod Rounds
pub mod Selection
pub mod Dispatch
mod Tests
