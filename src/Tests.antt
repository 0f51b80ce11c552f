-- ===== src/Tests.antt =====
-- Runs of the definitions at concrete inputs, and the theorems applied to them.
mod Manifest
pub mod Disk
mod Enumeration
mod Overlay
mod Launcher
mod Process
mod Network
