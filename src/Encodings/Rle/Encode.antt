-- ===== src/Encodings/Rle/Encode.antt =====
-- src/encodings/rle.rs: what `RleEncoder` writes, by the format of runs.
mod Overwrite
pub mod Holds
pub mod Packed
pub mod Space
pub mod State
pub mod Ended
pub mod Buffer
pub mod Repeat
mod Put
pub mod PutValue
pub mod Flush
pub mod Finish
pub mod FlushAll
pub mod Whole
