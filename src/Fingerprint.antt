-- ===== src/Fingerprint.antt =====
-- internal/fingerprint: deltas, masks and canonical payload paths.
pub mod Quoting
pub mod Delta
pub mod Mask
pub mod Volatility
pub mod Bracketed
pub mod Members
pub mod Grammar
pub mod Flatten
pub mod Project
pub mod Sensitive
pub mod Compare
