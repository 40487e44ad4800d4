-- ===== src/Telemetry.antt =====
-- crates/cerynth-telemetry: what is measured, and how.
pub mod Samples
pub mod Lifetimes
pub mod Processes
pub mod Collect
pub mod Bounds
pub mod Tracking
pub mod Record
