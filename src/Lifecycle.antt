-- ===== src/Lifecycle.antt =====
-- runtime.go: the queue of runs and the closing of the runtime.
pub mod Queue
pub mod Order
pub mod Gate
pub mod Served
