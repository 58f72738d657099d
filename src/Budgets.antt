-- ===== src/Budgets.antt =====
-- recon/core/budgets.py: budget limits, the reservation store and the budget manager.
pub mod Model
pub mod Checks
pub mod Store
pub mod Manager
pub mod Ledger
pub mod Balance
pub mod Reserving
pub mod Limits
pub mod Merge
pub mod Merging
pub mod Spending
pub mod Reaping
pub mod Runs
pub mod Settled
mod Tests
