-- ===== src/Helm.antt =====
-- pkg/helmutil: the chart's values and custom resource definitions.
pub mod Nodes
pub mod Values
pub mod Charts
pub mod Docs
pub mod Crds
pub mod Cache
pub mod Fetch
pub mod Upgrade
pub mod Release
mod Tests
