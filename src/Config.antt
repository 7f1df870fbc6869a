-- ===== src/Config.antt =====
-- pkg/config: the files of a Cassandra node, built from the operator's input.
pub mod Types
pub mod Format
pub mod Overrides
pub mod Gc
pub mod Jvm
pub mod Yaml
pub mod Node
pub mod Files
pub mod Build
pub mod Command
mod Tests
