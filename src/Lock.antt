-- ===== src/Lock.antt =====
-- src/util/ranked_mutex.hpp: mutexes that know their place in the lock order, and their metrics.
pub mod Held
pub mod Order
pub mod Metrics
pub mod Buckets
mod Tests
