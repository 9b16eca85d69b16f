-- ===== src/Cache.antt =====
-- src/cache: the caches.
pub mod Block
