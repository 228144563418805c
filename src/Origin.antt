-- ===== src/Origin.antt =====
-- src/app/webview_origin.cpp: which documents may hold the native bridge.
pub mod Url
pub mod Paths
pub mod Trust
mod Tests
