-- ===== src/Config/Tests.antt =====
-- Runs of the configuration builder, and its theorems at inputs that meet their hypotheses.
mod Data
mod Options
mod Files
