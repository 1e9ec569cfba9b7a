-- ===== src/Nodes.antt =====
-- The nodes of the panel (internal/nodes).
pub mod Model
pub mod Patterns
pub mod Validate
pub mod Admit
pub mod Admitted
pub mod Conflict
pub mod Rows
pub mod Store
pub mod Edit
pub mod Users
pub mod Find
pub mod Apart
pub mod Alike
pub mod Checked
pub mod Reading
pub mod Created
pub mod Kept
pub mod Updated
pub mod Sealed
pub mod Revised
pub mod Sound
pub mod Removed
pub mod Names
pub mod UserSteps
pub mod Safe
pub mod Switched
pub mod History
pub mod Samples
mod Tests
