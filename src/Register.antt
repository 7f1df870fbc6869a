-- ===== src/Register.antt =====
-- pkg/registration and cmd/kubectl-k8ssandra/register: registering a cluster with another one.
pub mod Kubeconfig
pub mod Cluster
pub mod Retry
pub mod Names
pub mod Labels
pub mod Cleaned
pub mod Again
mod Tests
