-- ===== src/Cache.antt =====
-- pkg/cache: the in-memory cache.
pub mod Memory
pub mod Recency
pub mod Redis
