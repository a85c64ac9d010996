-- ===== src/Tests.antt =====
-- Concrete inputs, and the theorems at them.
mod Samples
mod Accounts
mod Calls
mod Runs
mod Settings
mod Surroundings
mod Daily
mod Files
mod Views
