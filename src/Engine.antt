-- ===== src/Engine.antt =====
-- src/app/state.cpp: `AppState`, the parts of it that drive the timer and the record of attendance.
pub mod Timer
pub mod Flush
pub mod Retry
pub mod Durable
pub mod Drain
pub mod Backlog
pub mod Privacy
pub mod Pause
pub mod Recording
pub mod Written
pub mod Shown
pub mod Saved
pub mod Attendance
pub mod InStep
pub mod Spans
pub mod Stored
pub mod Settled
pub mod Nudge
pub mod Delay
pub mod Guardrails
mod Storms
mod Interludes
mod Tests
