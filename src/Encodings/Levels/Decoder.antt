-- ===== src/Encodings/Levels/Decoder.antt =====
-- src/encodings/levels.rs: `LevelDecoder`. Sums of lengths do not wrap here: where one would, the
-- assertion of `range` fails.
use parquet_rs.Basic.{Encoding}
use parquet_rs.BitUtil.Batch.{get_batch}
use parquet_rs.BitUtil.Reader.{BitReader, read_num_bytes, reset}
use parquet_rs.BitUtil.Reader
use parquet_rs.BitUtil.Scalar.{ceil}
use parquet_rs.Encodings.Levels.{level_width}
use parquet_rs.Encodings.Rle.Batch as RleBatch
use parquet_rs.Encodings.Rle.Decoder.{RleDecoder}
use parquet_rs.Encodings.Rle.Decoder as Rle
use parquet_rs.Memory.{BufferPtr, content, range}
use parquet_rs.Prelude.{
  ℕ, ◌+◌, ◌-◌, ◌*◌, ◌^◌, min, List, [], ◌++◌, length, take, drop, Option, none, some, Bool, true,
  false, Outcome, ok, panic, ◌>>=◌, ◌>>◌, assert, unwrap, ltb, if◌then◌else◌,
}

pub data LevelDecoder : Type 0 where
  rle rle_v2 : (num_values : Option ℕ) (decoder : RleDecoder) → LevelDecoder
  bit_packed : (num_values : Option ℕ) (bit_width : ℕ) (decoder : BitReader) → LevelDecoder

unfoldable pub v1 : Encoding → ℕ → Outcome LevelDecoder
v1 encoding max_level = elim encoding [
  | Encoding.rle ↦ ok (rle none (Rle.new (level_width max_level)))
  | Encoding.bit_packed ↦ (do
    decoder ← Reader.new []
    ok (bit_packed none (level_width max_level) decoder))
  | _ ↦ panic
]

unfoldable pub v2 : ℕ → LevelDecoder
v2 max_level = rle_v2 none (Rle.new (level_width max_level))

-- `as usize` for an `i32`, which keeps the sign.
abbrev pub as_usize : ℕ → ℕ
as_usize value = if ltb value (2 ^ 31) then value else value + (2 ^ 64 - 2 ^ 32)

-- `decoder.set_data` for a range of the buffer.
unfoldable pub set_range : ℕ → ℕ → BufferPtr ℕ → RleDecoder → Outcome RleDecoder
set_range start len p decoder = do
  part ← range start len p
  bytes ← content part
  Rle.set_data bytes decoder

unfoldable pub set_data : ℕ → BufferPtr ℕ → LevelDecoder → Outcome (ℕ × LevelDecoder)
unfolding set_range
set_data num_buffered_values p (rle num_values decoder) = do
  bytes ← content p
  size ← read_num_bytes 4 bytes
  decoder' ← set_range 4 (as_usize size) p decoder
  ok (4 + as_usize size, rle (some num_buffered_values) decoder')
set_data num_buffered_values p (bit_packed num_values bit_width decoder) = do
  let num_bytes = ceil (num_buffered_values * bit_width) 8
  let data_size = min num_bytes p.len
  part ← range p.start data_size p
  bytes ← content part
  decoder' ← reset bytes decoder
  ok (data_size, bit_packed (some num_buffered_values) bit_width decoder')
set_data num_buffered_values p (rle_v2 num_values decoder) = panic

unfoldable pub set_data_range : ℕ → BufferPtr ℕ → ℕ → ℕ → LevelDecoder → Outcome (ℕ × LevelDecoder)
unfolding set_range
set_data_range num_buffered_values p start len (rle_v2 num_values decoder) = do
  decoder' ← set_range start len p decoder
  ok (len, rle_v2 (some num_buffered_values) decoder')
set_data_range num_buffered_values p start len (rle num_values decoder) = panic
set_data_range num_buffered_values p start len (bit_packed num_values bit_width decoder) = panic

abbrev pub has_values : Option ℕ → Bool
has_values none = false
has_values (some n) = true

abbrev pub is_data_set : LevelDecoder → Bool
is_data_set (rle num_values decoder) = has_values num_values
is_data_set (rle_v2 num_values decoder) = has_values num_values
is_data_set (bit_packed num_values bit_width decoder) = has_values num_values

-- The values that are left, the buffer and the decoder, once `len` places were read.
unfoldable pub get_rle : Option ℕ → List ℕ → RleDecoder → Outcome (ℕ × (List ℕ × (ℕ × RleDecoder)))
get_rle num_values buffer decoder = do
  n ← unwrap num_values
  let len = min n (length buffer)
  (values_read, (values, decoder')) ← RleBatch.get_batch 2 (take len buffer) decoder
  ok (values_read, (values ++ drop len buffer, (n - values_read, decoder')))

unfoldable pub get_bit_packed :
    Option ℕ → ℕ → List ℕ → BitReader → Outcome (ℕ × (List ℕ × (ℕ × BitReader)))
get_bit_packed num_values bit_width buffer decoder = do
  n ← unwrap num_values
  let len = min n (length buffer)
  (values_read, (values, decoder')) ← get_batch 2 bit_width (take len buffer) decoder
  ok (values_read, (values ++ drop len buffer, (n - values_read, decoder')))

unfoldable pub get : List ℕ → LevelDecoder → Outcome (ℕ × (List ℕ × LevelDecoder))
unfolding get_rle get_bit_packed
get buffer (rle num_values decoder) = do
  assert (has_values num_values)
  (values_read, (values, (n, decoder'))) ← get_rle num_values buffer decoder
  ok (values_read, (values, rle (some n) decoder'))
get buffer (rle_v2 num_values decoder) = do
  assert (has_values num_values)
  (values_read, (values, (n, decoder'))) ← get_rle num_values buffer decoder
  ok (values_read, (values, rle_v2 (some n) decoder'))
get buffer (bit_packed num_values bit_width decoder) = do
  assert (has_values num_values)
  (values_read, (values, (n, decoder'))) ← get_bit_packed num_values bit_width buffer decoder
  ok (values_read, (values, bit_packed (some n) bit_width decoder'))
