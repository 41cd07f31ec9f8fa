-- ===== src/Examples.antt =====
-- The theorems at concrete inputs.
mod Storage
mod Encode
mod Query
mod Hybrid
mod Table
mod Disk
mod Stores
mod Tables
mod Indexes
mod Config
mod Async
