-- ===== src/Index.antt =====
-- The package index.
pub mod Types
pub mod Snapshot
pub mod Flat
pub mod IvfFlat
