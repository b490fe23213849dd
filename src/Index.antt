-- ===== src/Index.antt =====
-- src/index and src/include/index: the in-memory indexes.
pub mod Key
pub mod Interface
pub mod Buckets
pub mod Hash
pub mod Bitmap
pub mod BPlusTree
pub mod Bag
mod Tests
