-- ===== src/Examples.antt =====
-- Concrete instances of the parameters, and the theorems at concrete inputs.
mod Worlds
mod Scheduling
mod Kernels
mod Daemons
mod Policies
mod Connections
mod Lifecycles
mod Restarts
mod Measurements
mod Tools
mod Pipelines
mod Reports
mod Startups
