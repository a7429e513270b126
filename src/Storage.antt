-- ===== src/Storage.antt =====
-- src/biz/collab: storage.rs, cache.rs, mem_cache.rs and disk_cache.rs, which keep the documents in
-- Postgres with a cache in Redis, and the access control of the storage, from access_control.rs.
pub mod Cache
pub mod Documents
pub mod Coherence
pub mod Kept
pub mod Runs
pub mod Attempts
pub mod Failures
pub mod Reads
pub mod Casbin
pub mod Batch
pub mod Policies
