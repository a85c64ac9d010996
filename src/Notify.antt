-- ===== src/Notify.antt =====
-- notifications.go: daily digests, failure alerts and the quiet hours.
pub mod Times
pub mod Windows
pub mod Record
pub mod Process
pub mod Added
pub mod Alerts
pub mod Digest
