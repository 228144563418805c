-- ===== src/Storage.antt =====
-- src/storage/storage.cpp: what the SQL statements of the store do to its tables.
pub mod Tables
pub mod Spans
pub mod Signs
pub mod Credit
pub mod Prune
pub mod Retention
mod Tests
pub mod Sound
pub mod Statements
