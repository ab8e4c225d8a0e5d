-- ===== src/Messaging.antt =====
-- The application channels, core/messaging.
pub mod Bytes
pub mod Utf8
pub mod Wire
pub mod Grants
pub mod Panic
pub mod Chat
pub mod Clipboard
pub mod Audit
pub mod SessionRecords
