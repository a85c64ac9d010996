-- ===== src/Scheduler.antt =====
-- scheduler.go: planned slots, the claims of the loop, and the follow-ups.
pub mod Slots
pub mod Claims
pub mod Due
pub mod Cron
pub mod Plans
pub mod Restored
pub mod Timely
pub mod Requeued
