-- ===== src/Table.antt =====
-- The package table.
pub mod Types
pub mod VersionManager
pub mod ManifestStore
pub mod FragmentWriter
pub mod Merge
pub mod Columns
pub mod Operations
pub mod AsyncWriter
