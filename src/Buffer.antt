-- ===== src/Buffer.antt =====
-- src/buffer: pages in memory.
pub mod Bytes
pub mod Codec
pub mod Clock
pub mod Page
pub mod Frames
pub mod Pool
mod Tests
