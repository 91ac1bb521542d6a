-- ===== src/Index.antt =====
-- The indexes of lib/index.
pub mod Btree
