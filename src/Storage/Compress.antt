-- ===== src/Storage/Compress.antt =====
-- Column compression, lib/storage/compress.c.
pub mod Cells
pub mod Rle
pub mod Sort
pub mod Dict
pub mod Delta
pub mod Choose
pub mod Column
pub mod Serial
mod Tests
