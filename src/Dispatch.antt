-- ===== src/Dispatch.antt =====
-- src/app/command_dispatch.hpp: the core of the bridge between the page and the native commands.
pub mod Token
pub mod Flight
pub mod Answered
pub mod Input
pub mod Utf8
mod Tests
