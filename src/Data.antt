-- ===== src/Data.antt =====
-- The plugin's data: the structs of config.go, runtime.go, scheduler.go and notifications.go.
pub mod Config
pub mod Account
pub mod Run
pub mod Notice
pub mod State
