-- ===== src/Ops.antt =====
-- The jobs of the Django backend: ops/models.py, ops/services.py, ops/runner_bridge.py and
-- ops/management/commands/reconcile_jobs.py.
pub mod Board
pub mod Jobs
pub mod Worker
pub mod Turns
pub mod Rows
pub mod Noted
pub mod TurnLaws
pub mod Overrides
pub mod Retention
pub mod Retained
mod Witnesses
