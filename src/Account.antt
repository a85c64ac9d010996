-- ===== src/Account.antt =====
-- What the runtime does to the record of one account: the limits on model calls, the plans for
-- checks after a reset, and the results of checks and calls.
pub mod Limits
pub mod Followup
pub mod Results
pub mod Keeps
pub mod Events
pub mod Rolling
pub mod Allowance
pub mod Planned
pub mod Durable
