-- ===== src/Launcher.antt =====
-- The launcher, src/main.cpp.
pub mod Options
pub mod Quoting
pub mod Stats
pub mod Outputs
pub mod Scopes
pub mod Process
pub mod Backing
