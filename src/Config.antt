-- ===== src/Config.antt =====
-- crates/cerynth-config: the configuration file and the persisted runtime state.
pub mod Files
pub mod Settings
pub mod Persistence
