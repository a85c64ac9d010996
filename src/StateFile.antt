-- ===== src/StateFile.antt =====
-- runtime.go: the state file.
pub mod Read
pub mod Known
pub mod Seeded
pub mod Migrated
pub mod Write
pub mod Atomic
