-- ===== src/Encode.antt =====
-- The package encode: column data as bytes.
pub mod Types
pub mod Compression
pub mod Serialize
pub mod MiniBlock
pub mod Constant
