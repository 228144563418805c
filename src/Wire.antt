-- ===== src/Wire.antt =====
-- src/types.cpp and src/types.hpp: what crosses to the frontend and to the settings file as JSON.
pub mod Json
pub mod Laws
pub mod Session
pub mod Timer
pub mod Channels
pub mod Delivery
pub mod Modes
pub mod Settings
pub mod Range
pub mod Health
pub mod Runtime
pub mod Status
pub mod Dialog
pub mod Requests
mod Tests
