-- ===== src/Queue.antt =====
-- recon/core/queue.py: tasks, the in-memory task store and the task queue over it.
pub mod Task
pub mod Validate
pub mod Valid
pub mod Store
pub mod Ops
pub mod Finish
pub mod Invariant
pub mod Writes
pub mod Claiming
pub mod Edits
pub mod History
pub mod Owners
pub mod Commands
pub mod Runs
pub mod Recovery
pub mod RecoveryLoop
pub mod RecoverySpec
pub mod Progress
pub mod Fencing
pub mod Ready
pub mod Lanes
pub mod Shortlist
mod Tests
