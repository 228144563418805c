-- ===== src/Activation.antt =====
-- src/app/activation_channel.cpp and src/app/activation_channel.hpp: how a second launch asks the running instance to show itself.
pub mod Channel
pub mod Id
pub mod Launch
mod Tests
