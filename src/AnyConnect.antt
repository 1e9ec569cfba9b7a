-- ===== src/AnyConnect.antt =====
-- The AnyConnect service (internal/anyconnect).
pub mod Cidr
mod Tests
