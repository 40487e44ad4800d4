-- ===== src/Policy.antt =====
-- crates/cerynth-policy: the adaptive policy that recommends a profile.
pub mod Floats
pub mod Rules
pub mod Stability
pub mod Evaluation
pub mod Confidence
pub mod Live
pub mod Report
pub mod Replay
pub mod Pipeline
