-- ===== src/Router.antt =====
-- router.cpp and router.h: how keys are spread over shards and shards over connection pools.
pub mod Sort
pub mod Acquire
pub mod Shards
pub mod Switch
