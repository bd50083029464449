-- ===== src/Controller.antt =====
-- The controller's control loops: controller/pkg/{reconciler,node,workload,inventory,endpoint}.
pub mod Nodes
pub mod Names
pub mod Kinds
pub mod Inventory
pub mod Workloads
pub mod Loop
pub mod Environment
pub mod Certificates
pub mod Kubelet
pub mod Metrics
pub mod Client
pub mod Setup
