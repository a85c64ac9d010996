-- ===== src/Bark.antt =====
-- bark.go: the delivery of a message.
pub mod Send
pub mod Delivered
