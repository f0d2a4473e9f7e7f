-- ===== src/Encodings/Rle/Tests.antt =====
-- Runs of src/encodings/rle.rs: a repeated run and one group of three-bit values.
use parquet_rs.Encodings.Rle.Decoder.{RleDecoder, new, set_data}
use parquet_rs.Encodings.Rle.Format.{Run, repeated, packed, runs_values, runs_bytes, IsRun}
use parquet_rs.Encodings.Rle.SetData.{Returns, set_data_lem}
use parquet_rs.Encodings.Rle.Decode.{get_all, decode_lem}
use parquet_rs.Encodings.Rle.Batch.{get_batch}
use parquet_rs.Encodings.Rle.BatchWhole.{get_batch-runs_values}
use parquet_rs.BitUtil.Batch.Fields.{Ready}
use parquet_rs.BitUtil.Vlq.Format.{vlq_bytes}
use parquet_rs.Encodings.Rle.Encoder.{min_buffer_size}
use parquet_rs.Encodings.Rle.BufferSize.{min_buffer_size_lem}
use parquet_rs.Prelude.{
  ◌≤◌, ◌++◌, take, drop, All-replicate, replicate, ℕ, List, [], ◌∷◌, All, ok, ◌≡◌, refl, arith,
}
use parquet_rs.Encodings.Rle.Encoder.{min_buffer_size}
use parquet_rs.Encodings.Rle.BufferSize.{min_buffer_size_lem}
use parquet_rs.Prelude.{◌≤◌, some, none, running}
use parquet_rs.Encodings.Rle.Encoder.{min_buffer_size}
use parquet_rs.Encodings.Rle.BufferSize.{min_buffer_size_lem}
use parquet_rs.Prelude.{◌≤◌, false}
use parquet_rs.Encodings.Rle.Encoder.{RleEncoder, flush_rle_run}
use parquet_rs.Encodings.Rle.EncodeRun.{flush_rle_run_lem}
use parquet_rs.BitUtil.Writer
use parquet_rs.BitUtil.Writer.Whole.{new-IsValid}
use parquet_rs.BitUtil.Scalar.{ceil}
use parquet_rs.Encodings.Rle.Encoder.{encoder_from_buf, put_all, consume, max_buffer_size}
use parquet_rs.Encodings.Rle.Encode.Whole.{consume-put_all}
use parquet_rs.Prelude.Bytes.{IsByte}
use parquet_rs.Prelude.{◌<◌, length}
use parquet_rs.BitUtil.Vlq.Put.{Put}
use parquet_rs.Prelude.Bytes.{to_le, from_le}
use parquet_rs.Encodings.Rle.Batch.{fill_loop}
use parquet_rs.Encodings.Rle.BatchCutOff.{CutOff, fill_loop_stuck}
use parquet_rs.BitUtil.Reader.{BitReader}

abbrev two_runs : List Run
two_runs = repeated 2 6 ∷ packed 1 (0 ∷ 1 ∷ 2 ∷ 3 ∷ 4 ∷ 5 ∷ 6 ∷ 7 ∷ []) ∷ []

two_runs-IsRun : All (IsRun 3) two_runs
two_runs-IsRun = ((omega arith, omega arith), ((omega arith, refl, omega arith), tt))

decode_example :
    (d : RleDecoder) × (d' : RleDecoder) × (set_data (4 ∷ 6 ∷ 3 ∷ 0x88 ∷ 0xC6 ∷ 0xFA ∷ []) (new 3)
      ≡ ok d)
    × (get_all 11 4 d ≡ ok (6 ∷ 6 ∷ 0 ∷ 1 ∷ 2 ∷ 3 ∷ 4 ∷ 5 ∷ 6 ∷ 7 ∷ [], d'))
unfolding vlq_bytes to_le
decode_example = decode_lem 3 4 two_runs (omega arith) (omega arith) (omega arith) two_runs-IsRun

set_data_example :
    (d : RleDecoder) × (set_data (4 ∷ 6 ∷ 3 ∷ 0x88 ∷ 0xC6 ∷ 0xFA ∷ []) (new 3) ≡ ok d)
    × Returns 3 (6 ∷ 6 ∷ 0 ∷ 1 ∷ 2 ∷ 3 ∷ 4 ∷ 5 ∷ 6 ∷ 7 ∷ []) d
unfolding vlq_bytes to_le
set_data_example = set_data_lem 3 two_runs (omega arith) two_runs-IsRun

-- The decoder after `set_data`.
abbrev prepared :
    (d : RleDecoder) × (set_data (runs_bytes 3 two_runs) (new 3) ≡ ok d)
    × Returns 3 (runs_values two_runs) d
prepared = set_data_lem 3 two_runs (omega arith) two_runs-IsRun

-- Five values, across the end of the first run.
get_batch-runs_values_example :
    (k : ℕ) × (d' : RleDecoder) × (k ≡ 5)
    × (get_batch 2 (replicate 5 9) prepared.0
        ≡ ok (k, (take k (runs_values two_runs) ++ drop k (replicate 5 9), d')))
    × Returns 3 (drop k (runs_values two_runs)) d'
unfolding vlq_bytes to_le
get_batch-runs_values_example =
    get_batch-runs_values 3 2 (replicate 5 9) (runs_values two_runs) prepared.0 (omega arith)
      (omega arith) (omega arith) (All-replicate (Ready 2) 5 9 (λ h. omega arith)) prepared.2

-- Eight values are expected, and no byte is left.
abbrev empty_reader : BitReader
empty_reader = record {
  buffer = [];
  buffered_values = 0;
  byte_offset = 0;
  bit_offset = 0;
  total_bytes = 0;
}

abbrev starved : RleDecoder
starved = record {
  bit_width = 3;
  bit_reader = some empty_reader;
  rle_left = 0;
  bit_packed_left = 8;
  current_value = none;
}

starved-CutOff : CutOff 3 starved
unfolding from_le
starved-CutOff = record {
  reader = empty_reader;
  has_reader = refl;
  valid = record {
    fits = refl;
    bytes = tt;
    pending = omega arith;
    room = omega arith;
    loaded = refl;
  };
  width = refl;
  none_repeated = refl;
  expected = omega arith;
  short = omega arith;
}

fill_loop_stuck_example : fill_loop 1000 4 (7 ∷ 7 ∷ []) starved ≡ running
fill_loop_stuck_example =
    fill_loop_stuck 4 3 (omega arith) (omega arith) 1000 7 (7 ∷ []) starved
      (λ h. omega arith, (λ h. omega arith, tt)) starved-CutOff

-- An encoder that has seen nine fives of three bits.
abbrev nine_fives : RleEncoder
nine_fives = record {
  bit_width = 3;
  bit_writer = Writer.new 4;
  buffer_full = false;
  max_run_byte_size = 193;
  buffered_values = replicate 8 5;
  num_buffered_values = 0;
  current_value = 5;
  repeat_count = 9;
  bit_packed_count = 0;
  indicator_byte_pos = none;
}

flush_rle_run_example :
    (e' : RleEncoder) × (flush_rle_run nine_fives ≡ ok e')
    × Put (18 ∷ 5 ∷ []) (Writer.new 4) e'.bit_writer
    × (e'.repeat_count ≡ 0)
    × (e'.num_buffered_values ≡ 0)
unfolding Writer.new ceil vlq_bytes to_le
flush_rle_run_example = flush_rle_run_lem nine_fives (new-IsValid 4) (omega arith) (omega arith)

min_buffer_size_example : 12 ≤ min_buffer_size 1
unfolding vlq_bytes to_le
min_buffer_size_example = min_buffer_size_lem 1 (packed 11 (replicate 88 1)) (omega arith)

-- Five values of three bits, behind one byte of someone else.
abbrev five_values : List ℕ
five_values = 6 ∷ 6 ∷ 6 ∷ 1 ∷ 7 ∷ []

consume-put_all_example :
    (e : RleEncoder) × (e' : RleEncoder) × (runs : List Run) × (padding : ℕ) × (encoder_from_buf 3
        (replicate 300 3)
        1
      ≡ ok e)
    × (put_all five_values e ≡ ok e')
    × (consume e' ≡ ok (3 ∷ runs_bytes 3 runs))
    × All (IsRun 3) runs
    × (runs_values runs ≡ five_values ++ replicate padding 0)
    × (padding < 8)
    × (length (runs_bytes 3 runs) ≤ max_buffer_size 3 5)
unfolding min_buffer_size max_buffer_size ceil
consume-put_all_example =
    consume-put_all 3 (replicate 300 3) 1 five_values (omega arith)
      (All-replicate IsByte 300 3 (omega arith)) (omega arith) (omega arith) (omega arith)
      (omega arith, (omega arith, (omega arith, (omega arith, (omega arith, tt))))) (omega arith)
