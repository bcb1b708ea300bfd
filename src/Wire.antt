-- ===== src/Wire.antt =====
-- wire/ of the library: the frame layer.
pub mod Cobs
pub mod Bytes
pub mod Crc32
pub mod FrameHeader
pub mod Estop
pub mod BlobChunks
pub mod Raw
pub mod FrameBuffer
pub mod Fragmentation
pub mod Cbor
pub mod StreamBundle
