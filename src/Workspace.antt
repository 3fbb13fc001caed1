-- ===== src/Workspace.antt =====
-- The browser workspace store (apps/web/src/workspace.js).
pub mod Path
pub mod Store
pub mod Snapshots
pub mod Tree
pub mod Commands
pub mod Loss
mod Tests
