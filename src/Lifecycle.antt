-- ===== src/Lifecycle.antt =====
-- recon/core/lifecycle.py: admission of a scheduled task, execution of a claimed one, lease recovery.
pub mod Model
pub mod Gates
pub mod Admit
pub mod Execute
pub mod Passing
pub mod Admitted
pub mod Calls
pub mod AdmitCalls
pub mod ExecuteCalls
pub mod Turns
pub mod Settling
mod Tests
