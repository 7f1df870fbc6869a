-- ===== src/Datacenter.antt =====
-- pkg/cassdcutil with the commands that call it.
pub mod Fetch
pub mod Manage
pub mod Auth
pub mod Tls
pub mod ExecOptions
pub mod Nodetool
pub mod Executed
pub mod Operate
pub mod Laws
pub mod Waiting
pub mod Commands
mod Tests
