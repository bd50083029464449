-- ===== src/System.antt =====
-- The parts together.
pub mod Tracking
pub mod ContainerLogs
pub mod PodLogs
