-- ===== src/Sync.antt =====
-- The exchange of AnyConnect nodes and users between panels (internal/nodesync and
-- internal/api/sync.go).
pub mod Format
pub mod Import
pub mod Checks
pub mod Accepted
pub mod Safe
pub mod Handler
pub mod Passed
pub mod Guarded
pub mod Collapsed
pub mod Covered
pub mod Replaced
mod Tests
