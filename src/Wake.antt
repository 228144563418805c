-- ===== src/Wake.antt =====
-- src/util/engine_wake.hpp, writer_priority.hpp, cached_probe.hpp: how the engine sleeps and is woken.
pub mod Signal
pub mod Deadlines
pub mod Writers
pub mod Probe
mod Tests
