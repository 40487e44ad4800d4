-- ===== src/Sched.antt =====
-- schedulers/cerynth-scx: the scheduler process.
pub mod Tasks
pub mod Order
pub mod Ring
pub mod Khugepaged
pub mod Dispatch
pub mod Status
pub mod Reporter
pub mod Loop
pub mod OpsName
pub mod Files
pub mod Lifetime
