-- ===== src/Cli.antt =====
-- cli/cerynthctl: the command line client.
pub mod Commands
pub mod Client
pub mod Output
