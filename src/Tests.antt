-- ===== src/Tests.antt =====
-- Concrete stores, encoders, backends and runs, and the theorems at them.
mod Fixtures
mod Semantic
mod Data
mod Calls
mod Windows
mod Batches
mod Parallel
mod Queries
mod Sites
mod Runs
mod Programs
mod Estimates
