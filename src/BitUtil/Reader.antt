-- ===== src/BitUtil/Reader.antt =====
-- src/util/bit_util.rs: `BitReader`. The buffer is the view of the `ByteBufferPtr`, as a list of
-- bytes. A value of a type `T` is the number whose little-endian bytes it holds, and `T` itself is
-- given by its size in bytes.
pub mod Position
pub mod GetValue
pub mod Aligned
use parquet_rs.Prelude.{
  ℕ, zero, suc, ◌+◌, ◌-◌, ◌*◌, ◌/◌, ◌%◌, ◌^◌, min, List, [], ◌∷◌, ◌++◌, length, take, drop, Option,
  none, some, Outcome, ok, panic, ◌>>=◌, ◌>>◌, assert, unwrap, bit_or, ltb, leb, ◌==◌,
  if◌then◌else◌, not, ◌&&◌, Bool, true, false,
}
use parquet_rs.Prelude.Bytes.{from_le}
use parquet_rs.BitUtil.Scalar.{ceil, trailing_bits, wrapping_shl}

-- The macro `read_num_bytes!`, for a `size` of at most the size of the type.
unfoldable pub read_num_bytes : ℕ → List ℕ → Outcome ℕ
read_num_bytes size src = do assert (leb size (length src)); ok (from_le (take size src))

pub record BitReader : Type 0 where
  pub buffer : List ℕ
  pub buffered_values : ℕ
  pub byte_offset : ℕ
  pub bit_offset : ℕ
  pub total_bytes : ℕ

unfoldable pub new : List ℕ → Outcome BitReader
unfolding read_num_bytes
new buffer = do
  let total_bytes = length buffer
  let num_bytes = min 8 total_bytes
  buffered_values ← read_num_bytes num_bytes buffer
  ok (record {
    buffer = buffer;
    buffered_values = buffered_values;
    byte_offset = 0;
    bit_offset = 0;
    total_bytes = total_bytes;
  })

unfoldable pub reset : List ℕ → BitReader → Outcome BitReader
unfolding read_num_bytes
reset buffer r = do
  let total_bytes = length buffer
  let num_bytes = min 8 total_bytes
  buffered_values ← read_num_bytes num_bytes buffer
  ok (record r {
    buffer = buffer;
    total_bytes = total_bytes;
    buffered_values = buffered_values;
    byte_offset = 0;
    bit_offset = 0;
  })

unfoldable pub get_byte_offset : BitReader → ℕ
get_byte_offset r = r.byte_offset + ceil r.bit_offset 8

-- `self.buffer.start_from(self.byte_offset)` panics past the end.
unfoldable pub reload_buffer_values : BitReader → Outcome BitReader
reload_buffer_values r = do
  let bytes_to_read = min (r.total_bytes - r.byte_offset) 8
  assert (leb r.byte_offset (length r.buffer))
  buffered_values ← read_num_bytes bytes_to_read (drop r.byte_offset r.buffer)
  ok (record r { buffered_values = buffered_values })

-- The value in the 64 buffered bits.
abbrev pub low_value : ℕ → BitReader → ℕ
low_value num_bits r = trailing_bits r.buffered_values (r.bit_offset + num_bits) / 2 ^ r.bit_offset

-- The case of `get_value` that uses the buffered bits up.
unfoldable pub get_spilling : ℕ → ℕ → BitReader → Outcome (Option ℕ × BitReader)
get_spilling size_of num_bits r = do
  let bit_offset = r.bit_offset + num_bits - 64
  r' ← reload_buffer_values (record r { byte_offset = r.byte_offset + 8; bit_offset = bit_offset })
  let v =
      bit_or (low_value num_bits r)
        (wrapping_shl (trailing_bits r'.buffered_values bit_offset) (num_bits - bit_offset))
  ok (some (v % 2 ^ (8 * size_of)), r')

-- `T` has eight bytes at most, as the type of every caller has: `transmute_copy` reads as many bytes as
-- `T` has out of a `u64`.
unfoldable pub get_value : ℕ → ℕ → BitReader → Outcome (Option ℕ × BitReader)
get_value size_of num_bits r = do
  assert (leb num_bits 64)
  assert (leb num_bits (size_of * 8))
  if ltb (r.total_bytes * 8) (r.byte_offset * 8 + r.bit_offset + num_bits)
      then ok (none, r)
      else if leb 64 (r.bit_offset + num_bits)
      then get_spilling size_of num_bits r
      else ok (
        some (low_value num_bits r % 2 ^ (8 * size_of)),
        record r { bit_offset = r.bit_offset + num_bits },
      )

-- For a `num_bytes` of at most the size of the type.
unfoldable pub get_aligned : ℕ → BitReader → Outcome (Option ℕ × BitReader)
get_aligned num_bytes r =
    let bytes_read = ceil r.bit_offset 8 in
    let at = r.byte_offset + bytes_read in
    if ltb r.total_bytes (at + num_bytes) then ok (none, r) else do
      assert (leb at (length r.buffer))
      v ← read_num_bytes num_bytes (drop at r.buffer)
      r' ← reload_buffer_values (record r { byte_offset = at + num_bytes; bit_offset = 0 })
      ok (some v, r')
