-- ===== src/Display.antt =====
-- account_display.go: the names of the accounts that the displays show.
pub mod Names
pub mod Safe
pub mod Store
pub mod Saved
