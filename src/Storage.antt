-- ===== src/Storage.antt =====
-- The storage layer, lib/storage.
pub mod Batch
pub mod Compress
pub mod Txn
