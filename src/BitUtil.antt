-- ===== src/BitUtil.antt =====
-- src/util/bit_util.rs: the bit-level helpers, the bit writer and the bit reader.
pub mod Scalar
pub mod Writer
pub mod Reader
pub mod Vlq
pub mod RoundTrip
pub mod Batch
mod Tests
