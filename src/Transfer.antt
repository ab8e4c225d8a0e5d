-- ===== src/Transfer.antt =====
-- File transfer, core/xfer.
pub mod Scheduler
pub mod Resume
