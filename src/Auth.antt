-- ===== src/Auth.antt =====
-- pkg/auth and what it asks of pkg/cache.
pub mod TokenCache
pub mod Manager
