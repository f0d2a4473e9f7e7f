-- ===== src/Encodings.antt =====
-- src/encodings: the encodings of values into pages.
pub mod Levels
pub mod Rle
