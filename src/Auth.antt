-- ===== src/Auth.antt =====
-- Logins and sessions (internal/auth).
pub mod Limiter
pub mod Limits
pub mod Window
pub mod Login
pub mod Guesses
pub mod Model
pub mod Service
pub mod Sessions
pub mod Gate
pub mod Gated
mod Tests
mod LoginTests
