-- ===== src/Encodings/Levels/Tests.antt =====
-- Runs of src/encodings/levels.rs: three levels up to two.
use parquet_rs.Basic.{Encoding}
use parquet_rs.Memory as Memory
use parquet_rs.Encodings.Levels.{max_buffer_size}
use parquet_rs.Encodings.Levels.Encoder as Encoder
use parquet_rs.Encodings.Levels.Encoder.{LevelEncoder}
use parquet_rs.Encodings.Levels.Decoder as Decoder
use parquet_rs.Encodings.Levels.Decoder.{LevelDecoder}
use parquet_rs.Encodings.Levels.BitRoundTrip.{bit_packed_round_trip}
use parquet_rs.Encodings.Levels.RoundTrip.{rle_round_trip, rle_v2_round_trip}
use parquet_rs.Prelude.{ℕ, ◌≤◌, List, [], ◌∷◌, length, replicate, All, ok, ◌≡◌, refl, arith}

abbrev three_levels : List ℕ
three_levels = 2 ∷ 0 ∷ 1 ∷ []

three_levels_bounded : All (λ v. v ≤ 2) three_levels
three_levels_bounded = (omega arith, (omega arith, (omega arith, tt)))

rle_v2_round_trip_example :
    (size : ℕ) × (e : LevelEncoder) × (e' : LevelEncoder) × (bytes : List ℕ) × (d : LevelDecoder)
    × (d' : LevelDecoder) × (max_buffer_size Encoding.rle 2 3 ≡ ok size)
    × (Encoder.v2 2 (replicate size 0) ≡ ok e)
    × (Encoder.put three_levels e ≡ ok (3, e'))
    × (Encoder.consume e' ≡ ok bytes)
    × (Decoder.set_data_range 3 (Memory.new bytes) 0 (length bytes) (Decoder.v2 2)
        ≡ ok (length bytes, d))
    × (Decoder.get (9 ∷ 9 ∷ 9 ∷ []) d ≡ ok (3, (three_levels, d')))
rle_v2_round_trip_example =
    rle_v2_round_trip 2 three_levels (9 ∷ 9 ∷ 9 ∷ []) (omega arith) three_levels_bounded
      (omega arith) refl

rle_round_trip_example :
    (size : ℕ) × (e : LevelEncoder) × (e' : LevelEncoder) × (bytes : List ℕ) × (d0 : LevelDecoder)
    × (d : LevelDecoder) × (d' : LevelDecoder) × (max_buffer_size Encoding.rle 2 3 ≡ ok size)
    × (Encoder.v1 Encoding.rle 2 (replicate size 0) ≡ ok e)
    × (Encoder.put three_levels e ≡ ok (3, e'))
    × (Encoder.consume e' ≡ ok bytes)
    × (Decoder.v1 Encoding.rle 2 ≡ ok d0)
    × (Decoder.set_data 3 (Memory.new bytes) d0 ≡ ok (length bytes, d))
    × (Decoder.get (9 ∷ 9 ∷ 9 ∷ []) d ≡ ok (3, (three_levels, d')))
rle_round_trip_example =
    rle_round_trip 2 three_levels (9 ∷ 9 ∷ 9 ∷ []) (omega arith) three_levels_bounded (omega arith)
      refl

bit_packed_round_trip_example :
    (size : ℕ) × (e : LevelEncoder) × (e' : LevelEncoder) × (bytes : List ℕ) × (d0 : LevelDecoder)
    × (d : LevelDecoder) × (d' : LevelDecoder) × (max_buffer_size Encoding.bit_packed 2 3 ≡ ok size)
    × (Encoder.v1 Encoding.bit_packed 2 (replicate size 0) ≡ ok e)
    × (Encoder.put three_levels e ≡ ok (3, e'))
    × (Encoder.consume e' ≡ ok bytes)
    × (Decoder.v1 Encoding.bit_packed 2 ≡ ok d0)
    × (Decoder.set_data 3 (Memory.new bytes) d0 ≡ ok (length bytes, d))
    × (Decoder.get (9 ∷ 9 ∷ 9 ∷ []) d ≡ ok (3, (three_levels, d')))
bit_packed_round_trip_example =
    bit_packed_round_trip 2 three_levels (9 ∷ 9 ∷ 9 ∷ []) (omega arith) (omega arith)
      three_levels_bounded (omega arith) refl
