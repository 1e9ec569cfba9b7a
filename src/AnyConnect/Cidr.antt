-- ===== src/AnyConnect/Cidr.antt =====
-- The IPv4 prefixes that the panel excludes from the tunnel (internal/anyconnect/network.go): cutting
-- a range into blocks, cutting reserved blocks out, sorting, joining and limiting.
pub mod Prefix
pub mod Blocks
pub mod Subtract
pub mod Range
pub mod Cover
pub mod Routes
pub mod Normal
pub mod Collapse
pub mod China
