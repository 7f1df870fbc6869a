-- ===== src/Cli.antt =====
-- cmd/kubectl-k8ssandra: the tree of commands with their flags.
pub mod Flags
pub mod Commands
pub mod Groups
mod Declared
pub mod Made
pub mod Grown
pub mod Runs
pub mod Reads
mod Tests
