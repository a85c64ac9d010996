-- ===== src/Model.antt =====
-- runtime.go: `executeAccountWithGuard`, the calls of the model for one account, and the functions
-- that read a response.
pub mod Answer
pub mod Execute
pub mod Logged
pub mod Discipline
pub mod Attempts
