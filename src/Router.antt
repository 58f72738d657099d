-- ===== src/Router.antt =====
-- recon/core/router.py: the routing rules and the router.
pub mod Rules
pub mod Registry
pub mod Laws
pub mod Batch
pub mod Removal
pub mod Expansion
mod Tests
