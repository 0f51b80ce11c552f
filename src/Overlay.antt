-- ===== src/Overlay.antt =====
-- The write overlay and the input filter: src/overlay_engine.h and src/overlay_engine.cpp.
pub mod Globals
pub mod Paths
pub mod Disk
pub mod Resolve
pub mod Records
pub mod Enumeration
