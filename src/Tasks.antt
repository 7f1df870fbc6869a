-- ===== src/Tasks.antt =====
-- pkg/tasks: the tasks of a datacenter and of a cluster.
pub mod Names
pub mod Create
pub mod Wait
pub mod Cluster
pub mod Laws
pub mod Compactions
mod Tests
