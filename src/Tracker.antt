-- ===== src/Tracker.antt =====
-- src/engine/app_context.cpp and src/snapback: which windows are on task, and the way back from a distraction.
pub mod AppContext
pub mod Rules
pub mod Title
pub mod Machine
pub mod Return
mod Tests
