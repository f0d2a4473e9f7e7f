-- ===== src/BitUtil/RoundTrip.antt =====
-- src/util/bit_util.rs: what a `BitWriter` writes is what a `BitReader` reads from its bytes.
pub mod Values
pub mod Ints
