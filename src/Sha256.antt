-- ===== src/Sha256.antt =====
-- c/sha256.c: SHA-256 as a stream of updates.
pub mod Block
pub mod Context
pub mod Padding
pub mod Holding
pub mod Filling
pub mod Update
pub mod Streaming
pub mod Hex
pub mod File
pub mod Harness
pub mod Reading
pub mod Keeping
pub mod Success
pub mod Shape
