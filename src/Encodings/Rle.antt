-- ===== src/Encodings/Rle.antt =====
-- src/encodings/rle.rs: the hybrid of run-length encoding and bit packing.
pub mod Encoder
pub mod BufferSize
pub mod EncodeRun
pub mod Decoder
pub mod Format
pub mod Bits
pub mod Reading
pub mod Reload
pub mod Refill
pub mod Get
pub mod RunBytes
pub mod SetData
pub mod Decode
pub mod Batch
pub mod BatchStep
pub mod BatchLoop
pub mod BatchWhole
pub mod BatchCutOff
pub mod Encode
mod Tests
