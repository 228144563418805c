-- ===== src/Settings.antt =====
-- src/app/settings.cpp: the settings file, its staging copy and its backup.
pub mod Files
pub mod Crash
mod Tests
