-- ===== src/Meta.antt =====
-- The configuration in meta.cpp.
pub mod Partition
pub mod Auth
pub mod Load
