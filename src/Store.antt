-- ===== src/Store.antt =====
-- internal/store: what the caches keep on disk.
pub mod Verdicts
pub mod Counting
pub mod Eviction
