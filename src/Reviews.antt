-- ===== src/Reviews.antt =====
-- recon/policy/review_gate.py: human-review cases, their store and the gate that opens them.
pub mod Model
pub mod Store
pub mod Gate
pub mod Cases
pub mod Passing
pub mod Settled
mod Tests
