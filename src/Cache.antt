-- ===== src/Cache.antt =====
-- The result cache, internal/cache.
pub mod Evict
