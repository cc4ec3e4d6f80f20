-- ===== src/Scheduler.antt =====
-- scheduler/: the choice of the next slot, and the service that runs it.
pub mod Calendar
pub mod Choices
pub mod Progress
pub mod Slots
pub mod Rounds
pub mod Commands
pub mod Outcomes
pub mod Parts
pub mod Runs
pub mod CommandRuns
pub mod Service
pub mod Waiting
mod Samples
mod Witnesses
