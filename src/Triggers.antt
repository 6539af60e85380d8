-- ===== src/Triggers.antt =====
-- The webhook signatures and the file watcher daemon of src/triggers.
pub mod Hmac
pub mod Watcher
