-- ===== src/Encodings/Rle/Encoder.antt =====
-- src/encodings/rle.rs: `RleEncoder`. `indicator_byte_pos` is `none` where the code has -1. Where a
-- function returns an error its encoder is left out, as no caller goes on with it.
use parquet_rs.Prelude.{
  ℕ, ◌+◌, ◌-◌, ◌*◌, ◌/◌, ◌%◌, ◌^◌, max, List, [], ◌∷◌, ◌++◌, length, take, set, replicate, Bool,
  true, false, not, ◌&&◌, ◌||◌, Option, none, some, Outcome, ok, err, general, ◌>>=◌, ◌>>◌, assert,
  bit_or, ltb, leb, ◌==◌, if◌then◌else◌,
}
use parquet_rs.BitUtil.Scalar.{ceil}
use parquet_rs.BitUtil.Writer.{
  BitWriter, new_from_buf, skip, put_value, put_aligned, put_aligned_offset,
}
use parquet_rs.BitUtil.Writer
use parquet_rs.BitUtil.Vlq.{put_vlq_int, max_vlq_byte_len}

abbrev pub max_groups_per_bit_packed_run : ℕ
max_groups_per_bit_packed_run = 64

abbrev pub max_values_per_bit_packed_run : ℕ
max_values_per_bit_packed_run = max_groups_per_bit_packed_run * 8

pub record RleEncoder : Type 0 where
  pub bit_width : ℕ
  pub bit_writer : BitWriter
  pub buffer_full : Bool
  pub max_run_byte_size : ℕ
  pub buffered_values : List ℕ
  pub num_buffered_values : ℕ
  pub current_value : ℕ
  pub repeat_count : ℕ
  pub bit_packed_count : ℕ
  pub indicator_byte_pos : Option ℕ

unfoldable pub min_buffer_size : ℕ → ℕ
min_buffer_size bit_width =
    let max_bit_packed_run_size = 1 + ceil (max_values_per_bit_packed_run * bit_width) 8 in
    let max_rle_run_size = max_vlq_byte_len + ceil bit_width 8 in
    max max_bit_packed_run_size max_rle_run_size

unfoldable pub max_buffer_size : ℕ → ℕ → ℕ
max_buffer_size bit_width num_values =
    let num_runs = ceil num_values 8 in
    let bit_packed_max_size = num_runs + num_runs * bit_width in
    let min_rle_run_size = 1 + ceil bit_width 8 in
    let rle_max_size = ceil num_values 8 * min_rle_run_size in max bit_packed_max_size rle_max_size

unfoldable pub encoder_from_buf : ℕ → List ℕ → ℕ → Outcome RleEncoder
unfolding min_buffer_size
encoder_from_buf bit_width buffer start = do
  assert (leb bit_width 64)
  let max_run_byte_size = min_buffer_size bit_width
  assert (leb max_run_byte_size (length buffer))
  bit_writer ← new_from_buf buffer start
  ok (record {
    bit_width = bit_width;
    bit_writer = bit_writer;
    buffer_full = false;
    max_run_byte_size = max_run_byte_size;
    buffered_values = replicate 8 0;
    num_buffered_values = 0;
    current_value = 0;
    repeat_count = 0;
    bit_packed_count = 0;
    indicator_byte_pos = none;
  })

unfoldable pub new_encoder : ℕ → ℕ → Outcome RleEncoder
unfolding encoder_from_buf
new_encoder bit_width buffer_len = encoder_from_buf bit_width (replicate buffer_len 0) 0

unfoldable pub flush_rle_run : RleEncoder → Outcome RleEncoder
flush_rle_run e = do
  assert (ltb 0 e.repeat_count)
  (indicator_put, w1) ← put_vlq_int (e.repeat_count * 2 % 2 ^ 64) e.bit_writer
  (value_put, w2) ← put_aligned e.current_value (ceil e.bit_width 8) w1
  if indicator_put && value_put
      then ok (record e { bit_writer = w2; num_buffered_values = 0; repeat_count = 0 })
      else err general

-- The place of the indicator byte: the reserved one, or the next byte.
unfoldable pub reserve_indicator : Option ℕ → BitWriter → Outcome (ℕ × BitWriter)
reserve_indicator (some pos) w = ok (pos, w)
reserve_indicator none w = do
  (at, w') ← skip 1 w
  elim at [ none ↦ err general | some pos ↦ ok (pos, w') ]

-- The loop over the buffered values, whose results are not looked at.
unfoldable pub put_literals : ℕ → List ℕ → BitWriter → Outcome BitWriter
put_literals bit_width [] w = ok w
put_literals bit_width (v ∷ vs) w = do
  (_, w') ← put_value v bit_width w
  put_literals bit_width vs w'

-- The part of `flush_bit_packed_run` that ends the run.
unfoldable pub write_indicator : ℕ → RleEncoder → Outcome RleEncoder
write_indicator pos e = do
  let indicator_byte = bit_or (e.bit_packed_count / 8 * 2 % 2 ^ 64) 1 % 256
  (done, w) ← put_aligned_offset indicator_byte 1 pos e.bit_writer
  if done
      then ok (record e { bit_writer = w; indicator_byte_pos = none; bit_packed_count = 0 })
      else err general

unfoldable pub flush_bit_packed_run : Bool → RleEncoder → Outcome RleEncoder
unfolding reserve_indicator put_literals write_indicator
flush_bit_packed_run update_indicator_byte e = do
  (pos, w1) ← reserve_indicator e.indicator_byte_pos e.bit_writer
  w2 ← put_literals e.bit_width (take e.num_buffered_values e.buffered_values) w1
  let e' = record e { bit_writer = w2; num_buffered_values = 0; indicator_byte_pos = some pos }
  if update_indicator_byte then write_indicator pos e' else ok e'

-- The run goes on until it has the most groups that an indicator byte can count.
unfoldable pub flush_group : RleEncoder → Outcome RleEncoder
unfolding flush_bit_packed_run
flush_group e = do
  let last = leb max_groups_per_bit_packed_run (e.bit_packed_count / 8 + 1)
  assert (not last || (elim e.indicator_byte_pos [ none ↦ false | some pos ↦ true ]))
  e' ← flush_bit_packed_run last e
  ok (record e' { repeat_count = 0 })

unfoldable pub flush_buffered_values : RleEncoder → Outcome RleEncoder
unfolding flush_bit_packed_run flush_group
flush_buffered_values e =
    if leb 8 e.repeat_count
    then (let e1 : RleEncoder = record e { num_buffered_values = 0 } in
        if ltb 0 e1.bit_packed_count
        then (do assert (e1.bit_packed_count % 8 == 0); flush_bit_packed_run true e1)
        else ok e1)
    else flush_group (record e { bit_packed_count = e.bit_packed_count + e.num_buffered_values })

-- The end of `put`: the value is buffered, and the buffer flushed when it is full.
unfoldable pub buffer_value : ℕ → RleEncoder → Outcome RleEncoder
unfolding flush_buffered_values
buffer_value value e = do
  assert (ltb e.num_buffered_values 8)
  let e1 = record e {
    buffered_values = set e.buffered_values e.num_buffered_values value;
    num_buffered_values = e.num_buffered_values + 1;
  }
  if e1.num_buffered_values == 8
      then (do assert (e1.bit_packed_count % 8 == 0); flush_buffered_values e1)
      else ok e1

-- A value that is not the current one ends a run of repeated values.
unfoldable pub start_value : ℕ → RleEncoder → Outcome RleEncoder
unfolding flush_rle_run
start_value value e = do
  e1 ← if leb 8 e.repeat_count then (do assert (e.bit_packed_count == 0); flush_rle_run e) else ok e
  ok (record e1 { repeat_count = 1; current_value = value })

unfoldable pub put : ℕ → RleEncoder → Outcome (Bool × RleEncoder)
unfolding start_value buffer_value
put value e =
    if e.buffer_full
    then ok (false, e)
    else if e.current_value == value
    then (let e1 : RleEncoder = record e { repeat_count = e.repeat_count + 1 } in
        if ltb 8 e1.repeat_count
        then ok (true, e1)
        else (do e2 ← buffer_value value e1; ok (true, e2)))
    else (do e1 ← start_value value e; e2 ← buffer_value value e1; ok (true, e2))

-- The loop of a caller that gives one value after the other, and gives up when one does not fit.
unfoldable pub put_all : List ℕ → RleEncoder → Outcome RleEncoder
put_all [] e = ok e
put_all (v ∷ vs) e = do (done, e') ← put v e; if done then put_all vs e' else err general

-- The buffered values, padded with zeros to a whole group.
abbrev pub padded : ℕ → List ℕ → List ℕ
padded num values = take num values ++ replicate (8 - num) 0

-- The part of `flush` that ends a bit-packed run.
unfoldable pub flush_packed : RleEncoder → Outcome RleEncoder
unfolding flush_bit_packed_run
flush_packed e = do
  let e1 =
      if ltb 0 e.num_buffered_values
      then record e {
        buffered_values = padded e.num_buffered_values e.buffered_values;
        num_buffered_values = 8;
      }
      else e
  e2 ←
      flush_bit_packed_run true
        (record e1 { bit_packed_count = e1.bit_packed_count + e1.num_buffered_values })
  ok (record e2 { repeat_count = 0 })

unfoldable pub flush : RleEncoder → Outcome RleEncoder
unfolding flush_rle_run flush_packed
flush e =
    if ltb 0 e.bit_packed_count || (ltb 0 e.repeat_count || ltb 0 e.num_buffered_values)
    then (let all_repeat =
          e.bit_packed_count == 0
          && (e.repeat_count == e.num_buffered_values || e.num_buffered_values == 0) in
        if ltb 0 e.repeat_count && all_repeat then flush_rle_run e else flush_packed e)
    else ok e

unfoldable pub consume : RleEncoder → Outcome (List ℕ)
unfolding flush
consume e = do e' ← flush e; Writer.consume e'.bit_writer

unfoldable pub flush_buffer : RleEncoder → Outcome (List ℕ × RleEncoder)
unfolding flush
flush_buffer e = do
  e' ← flush e
  (bytes, w) ← Writer.flush_buffer e'.bit_writer
  ok (bytes, record e' { bit_writer = w })

unfoldable pub clear : RleEncoder → RleEncoder
clear e = record e {
  bit_writer = Writer.clear e.bit_writer;
  buffer_full = false;
  num_buffered_values = 0;
  current_value = 0;
  repeat_count = 0;
  bit_packed_count = 0;
  indicator_byte_pos = none;
}
