-- ===== src/Tests.antt =====
-- Concrete runs of the theorems: settings, accounts, scans and tasks as a small installation has
-- them.
pub mod Samples
mod Maintenance
mod Groups
mod Uploads
mod Reports
mod Scans
mod Accounts
mod Locks
mod Limits
mod Policy
