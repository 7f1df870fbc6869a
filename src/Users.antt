-- ===== src/Users.antt =====
-- pkg/secrets, pkg/users and cmd/kubectl-k8ssandra/users: the users of a datacenter.
pub mod Secrets
pub mod Roles
pub mod Add
pub mod Lines
pub mod RoundTrip
pub mod Created
pub mod Credentials
mod Tests
