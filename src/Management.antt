-- ===== src/Management.antt =====
-- management.go: the routes of the management interface.
pub mod Dispatch
pub mod Manual
pub mod Routed
