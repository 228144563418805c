-- ===== src/Ring.antt =====
-- src/capture/ring_buffer.hpp: the queue between the input hook's thread and the engine's thread.
pub mod Mask
pub mod Buffer
pub mod Window
pub mod Represents
pub mod Linear
pub mod Calls
mod Tests
