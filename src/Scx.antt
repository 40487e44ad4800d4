-- ===== src/Scx.antt =====
-- services/cerynthd/src/backends/scx.rs: the backend that runs the scheduler as a child process.
pub mod Os
pub mod Health
pub mod Backend
pub mod Stop
pub mod Lifecycle
pub mod Stopping
pub mod Starting
pub mod Running
pub mod Switching
pub mod Gate
pub mod Serving
pub mod Interleaving
