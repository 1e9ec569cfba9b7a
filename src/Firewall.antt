-- ===== src/Firewall.antt =====
-- The nftables rules of the panel (internal/firewall/firewall.go).
pub mod Nft
pub mod Rules
pub mod Count
pub mod Sync
pub mod Blocking
pub mod Deleted
pub mod Ensured
pub mod Fresh
pub mod Blocked
pub mod Apart
pub mod Table
mod Tests
