-- ===== src/Scenario/Runner.antt =====
-- scenarios/runner.py: hooks, the loop over the steps, and `run_task`.
pub mod Loops
pub mod Task
pub mod Keeps
pub mod TaskKeeps
