-- ===== src/Core.antt =====
-- crates/ticktape-core: sequence numbers, the canonical codec, CRC32C and frames.
pub mod Bytes
pub mod Codec
pub mod Crc32c
pub mod Seq
pub mod Service
pub mod Frame
