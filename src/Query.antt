-- ===== src/Query.antt =====
-- The query package.
pub mod Reader
pub mod Filter
pub mod Search
pub mod Hybrid
