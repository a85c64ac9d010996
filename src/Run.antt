-- ===== src/Run.antt =====
-- runtime.go and initial_quota.go: a run over the accounts.
pub mod Host
pub mod Inventory
pub mod Initial
pub mod Check
pub mod Account
pub mod Loop
pub mod Finish
pub mod Untouched
pub mod Passed
pub mod Clearance
pub mod Cleared
pub mod Counted
pub mod Ended
pub mod Verdict
pub mod Recorded
pub mod Places
pub mod Sorted
pub mod Spread
