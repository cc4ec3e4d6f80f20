-- ===== src/Store.antt =====
-- state/store.py: the JSON files through which the scheduler keeps its state.
pub mod Executed
pub mod Records
pub mod History
pub mod HistoryLaws
pub mod Lock
pub mod LockExclusion
pub mod LockRace
mod Witnesses
