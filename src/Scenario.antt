-- ===== src/Scenario.antt =====
-- scenarios/: the steps of a scenario, the engine that executes them and the runner around it.
pub mod Step
pub mod Effects
pub mod When
pub mod Attempts
pub mod Engine
pub mod Runner
pub mod Trace
pub mod DryRun
pub mod Reports
pub mod Retries
pub mod Drivers
pub mod Samples
mod Witnesses
