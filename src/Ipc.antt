-- ===== src/Ipc.antt =====
-- crates/cerynth-ipc: the types that the daemon, the CLI and the policy share, and the wire format.
pub mod Profiles
pub mod Messages
pub mod Envelopes
pub mod Frames
