-- ===== src/Platform.antt =====
-- The media side, core/platform.
pub mod TemporalSvc
pub mod Ipc
pub mod Input
pub mod ReferenceFrame
