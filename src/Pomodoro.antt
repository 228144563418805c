-- ===== src/Pomodoro.antt =====
-- src/engine/pomodoro.hpp: the Pomodoro timer, its public operations on the timer's own state.
-- Milliseconds and counts are unbounded integers; every clock reading is an argument.
pub mod Phase
pub mod Poll
pub mod Persist
pub mod Boundaries
pub mod Late
pub mod Schedule
pub mod Clicks
pub mod Relaunch
mod Tests
pub mod History
