-- ===== src/Encodings/Levels.antt =====
-- src/encodings/levels.rs: repetition and definition levels. A level is the bit pattern of an `i16`.
pub mod Encoder
pub mod Decoder
pub mod Width
pub mod Runs
pub mod BitPacked
pub mod BitRoundTrip
pub mod Framed
pub mod RoundTrip
mod Tests
use parquet_rs.Basic.{Encoding}
use parquet_rs.BitUtil.Scalar.{ceil, log2}
use parquet_rs.Encodings.Rle.Encoder as Rle
use parquet_rs.Prelude.{ℕ, ◌+◌, ◌-◌, ◌*◌, ◌%◌, ◌^◌, Outcome, ok, panic, ltb, if◌then◌else◌}

-- `value as u64` for an `i16`, which keeps the sign.
abbrev pub as_u64 : ℕ → ℕ
as_u64 value = if ltb value (2 ^ 15) then value else value + (2 ^ 64 - 2 ^ 16)

-- `log2(max_level as u64 + 1) as u8`
unfoldable pub level_width : ℕ → ℕ
level_width max_level = log2 ((as_u64 max_level + 1) % 2 ^ 64) % 2 ^ 8

unfoldable pub max_buffer_size : Encoding → ℕ → ℕ → Outcome ℕ
unfolding level_width
max_buffer_size encoding max_level num_buffered_values =
    let bit_width = level_width max_level in
    elim encoding [
      | Encoding.rle ↦
          ok (Rle.max_buffer_size bit_width num_buffered_values + Rle.min_buffer_size bit_width)
      | Encoding.bit_packed ↦ ok (ceil (num_buffered_values * bit_width) 8)
      | _ ↦ panic
    ]
