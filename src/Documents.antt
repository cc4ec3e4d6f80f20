-- ===== src/Documents.antt =====
-- The documents of scenarios: scenarios/loader.py.
pub mod Checks
pub mod Steps
pub mod Scenarios
pub mod Answers
pub mod Summaries
pub mod Data
pub mod Defaults
mod Witnesses
