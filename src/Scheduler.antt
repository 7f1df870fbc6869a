-- ===== src/Scheduler.antt =====
-- TryScheduling of pkg/scheduler/fit.go.
pub mod Fit
pub mod Trace
mod Skips
pub mod Capacity
pub mod Estimate
pub mod Promise
mod Tests
