-- ===== src/Daemon.antt =====
-- services/cerynthd: the daemon, but for backends/scx.rs.
pub mod Ops
pub mod State
pub mod Handlers
pub mod Contract
pub mod Server
pub mod Exchange
pub mod Guards
pub mod Threads
pub mod Listener
