-- ===== src/Envtest.antt =====
-- internal/envtest: the clusters that the program is tried out on.
pub mod Kind
pub mod Clients
pub mod Environment
pub mod Stopped
pub mod Multi
pub mod Interleaved
pub mod Created
pub mod Finished
mod Tests
