-- ===== src/BitUtil/Tests.antt =====
-- Runs of src/util/bit_util.rs at concrete states: a writer and a reader with 60 pending bits.
use parquet_rs.BitUtil.Scalar.{ceil, log2, trailing_bits, num_required_bits, set_array_bit}
use parquet_rs.BitUtil.Scalar.Laws.{
  ceil_bounds, log2_bounds, trailing_bits_lem, num_required_bits_bounds,
}
use parquet_rs.BitUtil.Scalar.ArrayBit.{array_bit, set_array_bit_lem}
use parquet_rs.BitUtil.Writer.{
  BitWriter, new_from_buf, put_value, put_aligned, flush, consume, flush_buffer,
}
use parquet_rs.BitUtil.Writer
use parquet_rs.BitUtil.Writer.Invariant
use parquet_rs.BitUtil.Writer.PutValue.{Appended, put_value_lem}
use parquet_rs.BitUtil.Writer.Aligned.{flushed, put_aligned_lem, flush_pads}
use parquet_rs.BitUtil.Writer.Whole.{
  new_from_buf_lem, consume_lem, flush_buffer-eq-consume, flush_buffer_panics,
}
use parquet_rs.BitUtil.Reader.{BitReader, get_value, get_aligned}
use parquet_rs.BitUtil.Reader
use parquet_rs.BitUtil.Reader.Position
use parquet_rs.BitUtil.Reader.GetValue.{get_value_lem}
use parquet_rs.BitUtil.Reader.Aligned.{get_aligned_lem}
use parquet_rs.BitUtil.Vlq.{
  put_vlq_int, get_vlq_int, zigzag, put_zigzag_vlq_int, get_zigzag_vlq_int, unzigzag,
}
use parquet_rs.BitUtil.Vlq.Format.{vlq, vlq_bytes}
use parquet_rs.BitUtil.Vlq.Put.{Put, put_vlq_int_lem}
use parquet_rs.BitUtil.Vlq.Get.{Got, get_vlq_int_lem}
use parquet_rs.BitUtil.Vlq.ZigZag.{unzigzag-zigzag}
use parquet_rs.BitUtil.RoundTrip.Values.{Field, put_values, get_values, values_round_trip}
use parquet_rs.BitUtil.RoundTrip.Ints.{
  put_vlq_ints, get_vlq_ints, vlq_round_trip, zigzag_round_trip,
}
use parquet_rs.BitUtil.Batch.{get_batch}
use parquet_rs.BitUtil.Batch.Fields.{fields, Ready}
use parquet_rs.BitUtil.Batch.Singles.{Past}
use parquet_rs.BitUtil.Batch.Whole.{get_batch_lem}
use parquet_rs.Prelude.{
  take, ◌⊎◌, ◌++◌, replicate, drop, All-replicate, ℕ, ◌+◌, ◌-◌, ◌*◌, ◌^◌, ◌≤◌, ◌<◌, List, [], ◌∷◌,
  length, All, true, some, ok, panic, if◌then◌else◌, ◌==◌, ◌≡◌, refl, arith,
}
use parquet_rs.Prelude.Bytes.{IsByte, from_le}

abbrev sixty_bits : BitWriter
sixty_bits = record {
  buffer = 0 ∷ 0 ∷ 0 ∷ 0 ∷ 0 ∷ 0 ∷ 0 ∷ 0 ∷ 0 ∷ 0 ∷ 0 ∷ 0 ∷ [];
  max_bytes = 12;
  buffered_values = 5;
  byte_offset = 0;
  bit_offset = 60;
  start = 0;
}

sixty_bits-IsValid : Invariant.IsValid sixty_bits
sixty_bits-IsValid = record {
  fits = refl;
  bytes = omega arith;
  pending = omega arith;
  buffered = omega arith;
  room = omega arith;
  started = omega arith;
}

abbrev some_bytes : List ℕ
some_bytes = 1 ∷ 2 ∷ 3 ∷ 4 ∷ 5 ∷ 6 ∷ 7 ∷ 0x80 ∷ 0xAC ∷ 2 ∷ 9 ∷ 10 ∷ []

abbrev sixty_read : BitReader
sixty_read = record {
  buffer = some_bytes;
  buffered_values = 0x8007060504030201;
  byte_offset = 0;
  bit_offset = 60;
  total_bytes = 12;
}

some_bytes-IsByte : All IsByte some_bytes
some_bytes-IsByte = omega arith

sixty_read-IsValid : Position.IsValid sixty_read
unfolding from_le
sixty_read-IsValid = record {
  fits = refl;
  bytes = some_bytes-IsByte;
  pending = omega arith;
  room = omega arith;
  loaded = refl;
}

-- The value crosses the 64 buffered bits.
put_value_example :
    (w' : BitWriter) × (put_value 300 9 sixty_bits ≡ ok (true, w')) × Appended sixty_bits 300 9 w'
put_value_example = put_value_lem 300 9 sixty_bits sixty_bits-IsValid (omega arith) (omega arith)

get_value_example :
    (r' : BitReader) × (get_value 2 12 sixty_read ≡ ok (some 0xAC8, r'))
    × Position.IsValid r'
    × (Position.position r' ≡ 72)
    × (r'.buffer ≡ some_bytes)
unfolding from_le
get_value_example = get_value_lem 2 12 sixty_read sixty_read-IsValid (omega arith) (omega arith)

put_aligned_example :
    (w' : BitWriter) × (put_aligned 0x1234 2 sixty_bits ≡ ok (true, w'))
    × Invariant.IsValid w'
    × (Invariant.position w' ≡ 80)
    × (Invariant.written w' ≡ 5 + 2 ^ 64 * 0x1234)
unfolding ceil from_le
put_aligned_example = put_aligned_lem 0x1234 2 sixty_bits sixty_bits-IsValid

get_aligned_example :
    (r' : BitReader) × (get_aligned 2 sixty_read ≡ ok (some 0x2AC, r'))
    × Position.IsValid r'
    × (Position.position r' ≡ 80)
    × (r'.buffer ≡ some_bytes)
unfolding ceil from_le
get_aligned_example = get_aligned_lem 2 sixty_read sixty_read-IsValid

flush_example :
    (w' : BitWriter) × (flush sixty_bits ≡ ok w')
    × Invariant.IsValid w'
    × (w'.bit_offset ≡ 0)
    × (Invariant.position w' ≡ 64)
    × (Invariant.written w' ≡ 5)
unfolding from_le
flush_example = flush_pads sixty_bits sixty_bits-IsValid

consume_example :
    (bytes : List ℕ) × (consume sixty_bits ≡ ok bytes)
    × All IsByte bytes
    × (8 * length bytes ≡ 64)
    × (from_le bytes ≡ 5)
unfolding from_le
consume_example = consume_lem sixty_bits sixty_bits-IsValid

flush_buffer_example :
    (bytes : List ℕ) × (consume sixty_bits ≡ ok bytes)
    × (flush_buffer sixty_bits ≡ ok (bytes, flushed sixty_bits))
flush_buffer_example = flush_buffer-eq-consume sixty_bits sixty_bits-IsValid refl

-- Two bytes with a start of 1, and the one byte behind it written.
abbrev started_late : BitWriter
started_late = record {
  buffer = 7 ∷ 8 ∷ [];
  max_bytes = 2;
  buffered_values = 0;
  byte_offset = 2;
  bit_offset = 0;
  start = 1;
}

flush_buffer_panics_example : flush_buffer started_late ≡ panic
unfolding ceil
flush_buffer_panics_example =
    flush_buffer_panics started_late
      (record {
        fits = refl;
        bytes = omega arith;
        pending = omega arith;
        buffered = omega arith;
        room = omega arith;
        started = omega arith;
      })
      (omega arith) (omega arith)

new_from_buf_example :
    (w : BitWriter) × (new_from_buf some_bytes 3 ≡ ok w)
    × Invariant.IsValid w
    × (Invariant.position w ≡ 24)
    × (w.buffer ≡ some_bytes)
    × (w.max_bytes ≡ length some_bytes)
    × (w.start ≡ 3)
    × (Invariant.written w ≡ from_le (take 3 some_bytes))
new_from_buf_example = new_from_buf_lem some_bytes 3 some_bytes-IsByte (omega arith)

new_reader_example :
    (r : BitReader) × (Reader.new some_bytes ≡ ok r)
    × Position.IsValid r
    × (r.buffer ≡ some_bytes)
    × (Position.position r ≡ 0)
new_reader_example = Position.new-IsValid some_bytes some_bytes-IsByte

put_vlq_int_example :
    (w' : BitWriter) × (put_vlq_int 300 sixty_bits ≡ ok (true, w')) × Put (vlq 300) sixty_bits w'
unfolding ceil vlq_bytes
put_vlq_int_example = put_vlq_int_lem 300 sixty_bits sixty_bits-IsValid (omega arith)

get_vlq_int_example :
    (r' : BitReader) × (get_vlq_int sixty_read ≡ ok (some 300, r'))
    × Got (9 ∷ 10 ∷ []) sixty_read r'
unfolding ceil vlq_bytes
get_vlq_int_example =
    get_vlq_int_lem 300 (9 ∷ 10 ∷ []) sixty_read sixty_read-IsValid (omega arith) refl

zigzag_round_trip_example :
    (w' : BitWriter) × (r' : BitReader) × (put_zigzag_vlq_int 150 sixty_bits ≡ ok (true, w'))
    × Put (vlq (zigzag 150)) sixty_bits w'
    × (get_zigzag_vlq_int sixty_read ≡ ok (some 150, r'))
    × Got (9 ∷ 10 ∷ []) sixty_read r'
unfolding ceil vlq_bytes
zigzag_round_trip_example =
    zigzag_round_trip 150 sixty_bits (9 ∷ 10 ∷ []) sixty_read (omega arith) sixty_bits-IsValid
      (omega arith) sixty_read-IsValid refl

-- `-5` as an `i64`.
unzigzag-zigzag_example : unzigzag (zigzag (2 ^ 64 - 5)) ≡ 2 ^ 64 - 5
unzigzag-zigzag_example = unzigzag-zigzag (2 ^ 64 - 5) (omega arith)

abbrev three_fields : List Field
three_fields =
    record { value = 2 ^ 60 + 3; width = 61 }
    ∷ record { value = 9; width = 7 }
    ∷ record { value = 1; width = 1 }
    ∷ []

values_round_trip_example :
    (w : BitWriter) × (bytes : List ℕ) × (r : BitReader) × (r' : BitReader) × (put_values
        three_fields
        (Writer.new 9)
      ≡ ok (true, w))
    × (consume w ≡ ok bytes)
    × (Reader.new bytes ≡ ok r)
    × (get_values three_fields r ≡ ok (some (2 ^ 60 + 3) ∷ some 9 ∷ some 1 ∷ [], r'))
values_round_trip_example = values_round_trip three_fields 9 (omega arith) (omega arith)

vlq_round_trip_example :
    (w : BitWriter) × (r : BitReader) × (r' : BitReader) × (put_vlq_ints
        (300 ∷ 5 ∷ [])
        (Writer.new 3)
      ≡ ok (true, w))
    × (consume w ≡ ok (0xAC ∷ 2 ∷ 5 ∷ []))
    × (Reader.new (0xAC ∷ 2 ∷ 5 ∷ []) ≡ ok r)
    × (get_vlq_ints (300 ∷ 5 ∷ []) r ≡ ok (some 300 ∷ some 5 ∷ [], r'))
unfolding vlq_bytes
vlq_round_trip_example = vlq_round_trip (300 ∷ 5 ∷ []) 3 (omega arith) (omega arith)

ceil_example : (65 ≤ ceil 65 8 * 8) × (ceil 65 8 * 8 < 65 + 8)
ceil_example = ceil_bounds 65 8 (omega arith)

log2_example : (1000 ≤ 2 ^ log2 1000) × (2 ^ log2 1000 < 2 * 1000)
log2_example = log2_bounds 1000 (omega arith) (omega arith)

trailing_bits_example : trailing_bits 1000 5 ≡ 8
trailing_bits_example = trailing_bits_lem 1000 5 (omega arith)

num_required_bits_example :
    (1000 < 2 ^ num_required_bits 1000) × (2 ^ num_required_bits 1000 ≤ 2000)
num_required_bits_example = num_required_bits_bounds 1000 (omega arith)

set_array_bit_example :
    (bits' : List ℕ) × (set_array_bit (0 ∷ 4 ∷ []) 11 ≡ ok bits')
    × (length bits' ≡ 2)
    × ((j : ℕ) → array_bit bits' j ≡ (if j == 11 then 1 else array_bit (0 ∷ 4 ∷ []) j))
set_array_bit_example = set_array_bit_lem (0 ∷ 4 ∷ []) 11 (omega arith)

-- Four values to the next whole byte, and 32 by one call of `unpack32`.
get_batch_example :
    (k : ℕ) × (r' : BitReader) × (k ≤ 40)
    × (60 + 1 * k ≤ 96)
    × ((k ≡ 40) ⊎ (96 < 60 + 1 * (k + 1)))
    × (get_batch 4 1 (replicate 40 7) sixty_read
        ≡ ok (k, (fields some_bytes 1 k 60 ++ drop k (replicate 40 7), r')))
    × Past 1 k sixty_read r'
get_batch_example =
    get_batch_lem 4 1 (replicate 40 7) sixty_read sixty_read-IsValid (omega arith) (omega arith)
      (All-replicate (Ready 4) 40 7 (λ h. omega arith))
