-- ===== src/Settings.antt =====
-- The panel's settings (internal/settings/store.go).
pub mod Store
pub mod Kept
mod Tests
