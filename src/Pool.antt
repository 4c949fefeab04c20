-- ===== src/Pool.antt =====
-- The connection pool of pool.cpp and pool.h.
pub mod Links
pub mod Waiting
pub mod Server
pub mod Balance
pub mod Build
