-- ===== src/Idle.antt =====
-- src/engine/idle_detector.hpp: the detector of input and its absence.
pub mod Detector
pub mod Edges
mod Tests
