-- ===== src/Storage.antt =====
-- storage/: queries, the in-memory backend, and what both promise.
pub mod Query
pub mod Mem
pub mod Sled
pub mod Reader
