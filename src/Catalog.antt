-- ===== src/Catalog.antt =====
-- The catalog: catalog/models.py, catalog/permissions.py and catalog/services.py.
pub mod Tables
pub mod Files
pub mod Access
pub mod Summary
pub mod Scenarios
pub mod Edits
pub mod Steps
pub mod Slots
pub mod Requests
pub mod Guards
pub mod Mirror
pub mod Mirrored
pub mod Untouched
pub mod Consistency
pub mod Visible
pub mod EditLaws
pub mod Config
pub mod Secrets
pub mod ConfigLaws
pub mod Samples
pub mod SlotFile
pub mod Stale
pub mod Renamed
mod Witnesses
