-- ===== src/Traffic.antt =====
-- Traffic accounting and quotas (internal/traffic/store.go).
pub mod Model
pub mod Period
pub mod Sampling
pub mod Store
pub mod Samples
pub mod Quota
pub mod Ticks
pub mod Flow
pub mod Effects
mod Tests
