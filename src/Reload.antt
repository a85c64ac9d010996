-- ===== src/Reload.antt =====
-- runtime.go: the reload of the configuration and the shutdown.
pub mod Configure
pub mod Planned
pub mod Kept
