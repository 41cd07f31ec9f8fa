-- ===== src/Storage.antt =====
-- The package storage.
pub mod FileFooter
pub mod BufferPool
pub mod Store
pub mod LocalFs
