-- ===== src/Agent.antt =====
-- The agent: agent/pkg, between Slurm and the controller.
pub mod Filters
pub mod Jobs
pub mod Nodes
pub mod Scripts
pub mod Dispatch
pub mod LogFiles
pub mod Server
pub mod Startup
pub mod Scontrol
