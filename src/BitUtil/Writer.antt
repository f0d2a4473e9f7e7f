-- ===== src/BitUtil/Writer.antt =====
-- src/util/bit_util.rs: `BitWriter`. A method that takes `&mut self` returns the new writer beside
-- its result; the buffer is the whole `Vec`, the bytes before `start` included. Offsets are exact:
-- a buffer has fewer than 2 ^ 60 bytes, so `byte_offset * 8` fits a `usize`.
pub mod Invariant
pub mod PutValue
pub mod Aligned
pub mod Whole
use parquet_rs.Prelude.{
  ℕ, zero, suc, ◌+◌, ◌-◌, ◌*◌, ◌/◌, ◌%◌, ◌^◌, List, ◌++◌, Bool, true, false, not, ◌&&◌, length,
  take, drop, replicate, Option, none, some, Outcome, ok, ◌>>=◌, ◌>>◌, assert, bit_and, bit_or,
  bit_xor, ltb, leb, ◌==◌, if◌then◌else◌,
}
use parquet_rs.Prelude.Bytes.{to_le}
use parquet_rs.BitUtil.Scalar.{ceil, checked_shr}

-- `convert_to_bytes`, for a `num_bytes` of at most the size of the value's type.
unfoldable pub convert_to_bytes : ℕ → ℕ → List ℕ
convert_to_bytes val num_bytes = to_le num_bytes val

-- `memcpy_value(&source, num_bytes, &mut buffer[offset..])` on a little-endian machine, for a
-- `num_bytes` of at most the size of the source's type. Slicing panics past the end.
unfoldable pub memcpy_value : ℕ → ℕ → List ℕ → ℕ → Outcome (List ℕ)
memcpy_value source num_bytes buffer offset = do
  assert (leb offset (length buffer))
  assert (leb num_bytes (length buffer - offset))
  ok (take offset buffer ++ (to_le num_bytes source ++ drop (offset + num_bytes) buffer))

pub record BitWriter : Type 0 where
  pub buffer : List ℕ
  pub max_bytes : ℕ
  pub buffered_values : ℕ
  pub byte_offset : ℕ
  pub bit_offset : ℕ
  pub start : ℕ

unfoldable pub new : ℕ → BitWriter
new max_bytes = record {
  buffer = replicate max_bytes 0;
  max_bytes = max_bytes;
  buffered_values = 0;
  byte_offset = 0;
  bit_offset = 0;
  start = 0;
}

unfoldable pub new_from_buf : List ℕ → ℕ → Outcome BitWriter
new_from_buf buffer start = do
  assert (ltb start (length buffer))
  ok (record {
    buffer = buffer;
    max_bytes = length buffer;
    buffered_values = 0;
    byte_offset = start;
    bit_offset = 0;
    start = start;
  })

unfoldable pub clear : BitWriter → BitWriter
clear w = record w { buffered_values = 0; byte_offset = w.start; bit_offset = 0 }

unfoldable pub flush : BitWriter → Outcome BitWriter
flush w = do
  let num_bytes = ceil w.bit_offset 8
  assert (leb (w.byte_offset + num_bytes) w.max_bytes)
  buffer ← memcpy_value w.buffered_values num_bytes w.buffer w.byte_offset
  ok (record w {
    buffer = buffer;
    buffered_values = 0;
    bit_offset = 0;
    byte_offset = w.byte_offset + num_bytes;
  })

unfoldable pub consume : BitWriter → Outcome (List ℕ)
consume w = do w' ← flush w; ok (take w'.byte_offset w'.buffer)

unfoldable pub buffer : BitWriter → List ℕ
buffer w = drop w.start w.buffer

-- `&self.buffer()[0..self.byte_offset]`: the slice is taken from `start` on, but its end is the
-- offset from the beginning of the whole buffer; past the end it panics.
unfoldable pub flush_buffer : BitWriter → Outcome (List ℕ × BitWriter)
flush_buffer w = do
  w' ← flush w
  assert (leb w'.byte_offset (length (buffer w')))
  ok (take w'.byte_offset (buffer w'), w')

-- The buffered bits are flushed before the check, and stay flushed when it fails: `none` is the
-- `Err` that is returned then.
unfoldable pub skip : ℕ → BitWriter → Outcome (Option ℕ × BitWriter)
skip num_bytes w = do
  w' ← flush w
  assert (leb w'.byte_offset w'.max_bytes)
  if ltb w'.max_bytes (w'.byte_offset + num_bytes)
      then ok (none, w')
      else ok (some w'.byte_offset, record w' { byte_offset = w'.byte_offset + num_bytes })

unfoldable pub bytes_written : BitWriter → ℕ
bytes_written w = w.byte_offset - w.start + ceil w.bit_offset 8

unfoldable pub buffer_len : BitWriter → ℕ
buffer_len w = w.max_bytes

-- `self.buffered_values |= v << self.bit_offset`
abbrev pub joined : ℕ → BitWriter → ℕ
joined v w = bit_or w.buffered_values (v * 2 ^ w.bit_offset % 2 ^ 64)

-- The case of `put_value` that fills the 64 buffered bits.
unfoldable pub put_spilling : ℕ → ℕ → BitWriter → Outcome (Bool × BitWriter)
put_spilling v num_bits w = do
  buffer ← memcpy_value (joined v w) 8 w.buffer w.byte_offset
  let bit_offset = w.bit_offset + num_bits - 64
  assert (ltb bit_offset 64)
  ok (
    true,
    record w {
      buffer = buffer;
      byte_offset = w.byte_offset + 8;
      bit_offset = bit_offset;
      buffered_values = checked_shr v (num_bits - bit_offset);
    },
  )

unfoldable pub put_value : ℕ → ℕ → BitWriter → Outcome (Bool × BitWriter)
put_value v num_bits w = do
  assert (leb num_bits 64)
  assert (checked_shr v num_bits == 0)
  if ltb (w.max_bytes * 8) (w.byte_offset * 8 + w.bit_offset + num_bits)
      then ok (false, w)
      else if leb 64 (w.bit_offset + num_bits)
      then put_spilling v num_bits w
      else ok
          (true, record w { buffered_values = joined v w; bit_offset = w.bit_offset + num_bits })

-- The slice that `get_next_byte_ptr` returns is `buffer[offset..offset + num_bytes]`.
unfoldable pub put_aligned : ℕ → ℕ → BitWriter → Outcome (Bool × BitWriter)
put_aligned val num_bytes w = do
  (offset, w') ← skip num_bytes w
  elim offset [
    | none ↦ ok (false, w')
    | some at ↦ (do
      buffer ← memcpy_value val num_bytes w'.buffer at
      ok (true, record w' { buffer = buffer }))
  ]

unfoldable pub put_aligned_offset : ℕ → ℕ → ℕ → BitWriter → Outcome (Bool × BitWriter)
put_aligned_offset val num_bytes offset w =
    if ltb w.max_bytes (num_bytes + offset) then ok (false, w) else do
      buffer ← memcpy_value val num_bytes w.buffer offset
      ok (true, record w { buffer = buffer })
