-- ===== src/Summary.antt =====
-- src/engine/focus_summary.hpp: the reference implementation of the focus summary.
pub mod Predictions
pub mod Stretch
mod Tests
