-- ===== src/Alert.antt =====
-- src/app/alert_routing.hpp, src/types.hpp and the alert ids of src/app/state.cpp: which
-- interruptions reach the user, by which channels, and what a click on one may do.
pub mod Routing
pub mod Policy
pub mod Ids
pub mod Claims
mod Tests
