-- ===== src/Cache.antt =====
-- The caches of a storage pool: src/vfs/cache/.
pub mod Policy
pub mod ReadCache
pub mod WriteCache
