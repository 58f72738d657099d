-- ===== src/Rates.antt =====
-- recon/policy/rate_limit.py: rate-limit rules, the shared buckets and their leases, and the limiter.
pub mod Model
pub mod Buckets
pub mod Store
pub mod Limiter
pub mod Plan
pub mod Ledger
pub mod Acquiring
pub mod Examining
pub mod Granting
pub mod Rules
pub mod Compiling
pub mod Sound
pub mod Spending
pub mod Reaping
pub mod Profile
pub mod Runs
pub mod Pacing
pub mod Window
pub mod Guarantee
pub mod Waiting
pub mod Shares
pub mod Await
mod Tests
