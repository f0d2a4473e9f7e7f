-- ===== src/Encodings/Levels/Encoder.antt =====
-- src/encodings/levels.rs: `LevelEncoder`. Where a function returns an error its encoder is left out.
use parquet_rs.Basic.{Encoding}
use parquet_rs.BitUtil.Writer
use parquet_rs.BitUtil.Writer.{BitWriter, new_from_buf, put_value}
use parquet_rs.Encodings.Levels.{as_u64, level_width}
use parquet_rs.Encodings.Rle.Encoder.{RleEncoder, encoder_from_buf, flush}
use parquet_rs.Encodings.Rle.Encoder as Rle
use parquet_rs.Prelude.Bytes.{to_le}
use parquet_rs.Prelude.{
  ℕ, ◌+◌, ◌-◌, List, [], ◌∷◌, ◌++◌, length, drop, Outcome, ok, err, panic, general, ◌>>=◌, ◌>>◌,
  assert, leb, if◌then◌else◌,
}

pub data LevelEncoder : Type 0 where
  rle rle_v2 : (encoder : RleEncoder) → LevelEncoder
  bit_packed : (bit_width : ℕ) (encoder : BitWriter) → LevelEncoder

unfoldable pub v1 : Encoding → ℕ → List ℕ → Outcome LevelEncoder
v1 encoding max_level byte_buffer = elim encoding [
  | Encoding.rle ↦ (do
    encoder ← encoder_from_buf (level_width max_level) byte_buffer 4
    ok (rle encoder))
  | Encoding.bit_packed ↦ (do
    encoder ← new_from_buf byte_buffer 0
    ok (bit_packed (level_width max_level) encoder))
  | _ ↦ panic
]

unfoldable pub v2 : ℕ → List ℕ → Outcome LevelEncoder
v2 max_level byte_buffer = do
  encoder ← encoder_from_buf (level_width max_level) byte_buffer 0
  ok (rle_v2 encoder)

-- The loop over the levels, from `num_encoded`.
unfoldable pub put_rle : List ℕ → ℕ → RleEncoder → Outcome (ℕ × RleEncoder)
put_rle [] num_encoded encoder = ok (num_encoded, encoder)
put_rle (value ∷ buffer) num_encoded encoder = do
  (done, encoder') ← Rle.put (as_u64 value) encoder
  if done then put_rle buffer (num_encoded + 1) encoder' else err general

unfoldable pub put_bit_packed : ℕ → List ℕ → ℕ → BitWriter → Outcome (ℕ × BitWriter)
put_bit_packed bit_width [] num_encoded encoder = ok (num_encoded, encoder)
put_bit_packed bit_width (value ∷ buffer) num_encoded encoder = do
  (done, encoder') ← put_value (as_u64 value) bit_width encoder
  if done then put_bit_packed bit_width buffer (num_encoded + 1) encoder' else err general

-- The arm of both RLE variants.
unfoldable pub put_and_flush : List ℕ → RleEncoder → Outcome (ℕ × RleEncoder)
unfolding put_rle
put_and_flush buffer encoder = do
  (num_encoded, encoder1) ← put_rle buffer 0 encoder
  encoder2 ← flush encoder1
  ok (num_encoded, encoder2)

unfoldable pub put : List ℕ → LevelEncoder → Outcome (ℕ × LevelEncoder)
unfolding put_and_flush put_bit_packed
put buffer (rle encoder) = do
  (num_encoded, encoder') ← put_and_flush buffer encoder
  ok (num_encoded, rle encoder')
put buffer (rle_v2 encoder) = do
  (num_encoded, encoder') ← put_and_flush buffer encoder
  ok (num_encoded, rle_v2 encoder')
put buffer (bit_packed bit_width encoder) = do
  (num_encoded, encoder1) ← put_bit_packed bit_width buffer 0 encoder
  encoder2 ← Writer.flush encoder1
  ok (num_encoded, bit_packed bit_width encoder2)

-- The first four bytes take the length of the others.
unfoldable pub length_prefixed : List ℕ → Outcome (List ℕ)
length_prefixed encoded_data = do
  assert (leb 4 (length encoded_data))
  ok (to_le 4 (length encoded_data - 4) ++ drop 4 encoded_data)

unfoldable pub consume : LevelEncoder → Outcome (List ℕ)
unfolding length_prefixed
consume (rle encoder) = do encoded_data ← Rle.consume encoder; length_prefixed encoded_data
consume (rle_v2 encoder) = Rle.consume encoder
consume (bit_packed bit_width encoder) = Writer.consume encoder
