-- ===== src/Encodings/Rle/Encode/Finish.antt =====
-- src/encodings/rle.rs: after `flush`, all values are in the runs.
use parquet_rs.Encodings.Rle.Encode.Flush.{Flushed, flush_run}
use parquet_rs.Encodings.Rle.Encoder.{RleEncoder, flush, flush_bit_packed_run}
use parquet_rs.Encodings.Rle.Format.{
  Run, repeated, packed, IsRun, run_bytes, runs_bytes, runs_values,
}
use parquet_rs.Encodings.Rle.Encode.Holds.{Holds}
use parquet_rs.Encodings.Rle.Encode.Packed.{packed_length, IsOpenAt, flush_closed}
use parquet_rs.Encodings.Rle.Encode.Space.{
  stream, stream-IsByte, stream-snoc, DoFit, runs_values-snoc, runs_bytes-snoc, group_size,
  room_for_repeated,
}
use parquet_rs.Encodings.Rle.Encode.State.{Common, Between}
use parquet_rs.Encodings.Rle.EncodeRun.{repeated_bytes}
use parquet_rs.Encodings.Rle.Encode.Repeat.{flush_rle_run-Repeat}
use parquet_rs.Prelude.Bytes.{IsByte}
use parquet_rs.Prelude.{
  ℕ, zero, suc, ◌+◌, ◌*◌, ◌/◌, ◌^◌, ◌≤◌, ◌<◌, List, [], ◌∷◌, ◌++◌, length, length-append,
  length-replicate, append_nil, take, replicate, All, All-append, none, true, ok, ◌≡◌, ◌⊎◌, refl,
  sym, ap, ◌∙◌, subst, arith, bind_to, ◌>>=◌,
}

pub take_whole : (l : List ℕ) (k : ℕ) → length l ≤ k → take k l ≡ l
take_whole [] zero h = refl
take_whole [] (suc k) h = refl
take_whole (x ∷ l) zero h = absurd (omega (arith, h))
take_whole (x ∷ l) (suc k) h = ap (λ t. x ∷ t) (take_whole l k (omega (arith, h)))

-- The run of equal values is the last one.
module _ (head : List ℕ) (n total : ℕ) (vs : List ℕ) (e : RleEncoder) (c : Common head n total e)
    (runs : List Run) (are_runs : All (IsRun e.bit_width) runs) (do_fit : DoFit e.bit_width runs)
    (between : Between head runs e) (more : 0 < e.repeat_count) (count : e.bit_packed_count ≡ 0)
    (all : vs ≡ runs_values runs ++ replicate e.repeat_count e.current_value)
    (within : length vs ≤ total) (limit : total < 2 ^ 32) where
  pub finish_repeat :
      (e.repeat_count ≡ e.num_buffered_values) ⊎ (e.num_buffered_values ≡ 0)
      → (e' : RleEncoder) × (flush e ≡ ok e')
        × (e'.bit_width ≡ e.bit_width)
        × Flushed head ((total + 7) / 8 * group_size e.bit_width) vs e'
  finish_repeat only =
      let sizes : length vs ≡ length (runs_values runs) + e.repeat_count = omega (
        arith,
        ap length all,
        length-append (runs_values runs) (replicate e.repeat_count e.current_value),
        length-replicate e.repeat_count e.current_value,
      ) in
      let r =
        flush_rle_run-Repeat head n total runs e c are_runs do_fit between more
          (omega (arith, sizes, within)) limit in
      (
        record e { bit_writer = r.writer; num_buffered_values = 0; repeat_count = 0 },
        flush_run e more count only ∙ r.done,
        refl,
        record {
          none_packed = count;
          none_repeated = refl;
          none_buffered = refl;
          runs = runs ++ repeated e.repeat_count e.current_value ∷ [];
          are_runs = r.are_runs;
          padding = 0;
          short = omega arith;
          values =
              runs_values-snoc runs (repeated e.repeat_count e.current_value)
              ∙ sym all
              ∙ sym (append_nil vs);
          fits = omega (
            arith,
            ap length (runs_bytes-snoc e.bit_width runs (repeated e.repeat_count e.current_value)),
            length-append (runs_bytes e.bit_width runs) (repeated_bytes e),
            room_for_repeated e.bit_width e.repeat_count e.current_value total
                ((total + 7) / 8 * group_size e.bit_width) runs do_fit (omega arith) more
                (omega (arith, sizes, within)),
          );
          holds = r.holds;
        },
      )

-- The bit-packed run ends with the values that are buffered.
module _ (head : List ℕ) (bound : ℕ) (vs : List ℕ) (e : RleEncoder) (narrow : e.bit_width ≤ 64)
    (head_bytes : All IsByte head) (runs : List Run) (written : List ℕ) (groups padding : ℕ)
    (are_runs : All (IsRun e.bit_width) runs)
    (opened : IsOpenAt e.bit_width
      (stream head e.bit_width runs)
      written
      e.indicator_byte_pos
      e.bit_writer)
    (room : 8 * (length (stream head e.bit_width runs) + 1)
        + e.bit_width * (length written + length (take e.num_buffered_values e.buffered_values))
      ≤ 8 * e.bit_writer.max_bytes)
    (few : groups < 64) (count : e.bit_packed_count ≡ 8 * groups)
    (size : length (written ++ take e.num_buffered_values e.buffered_values) ≡ 8 * groups)
    (written_small : All (λ v. v < 2 ^ e.bit_width) written)
    (small : All (λ v. v < 2 ^ e.bit_width) (take e.num_buffered_values e.buffered_values))
    (tight : length (runs_bytes e.bit_width runs) + 1 + e.bit_width * groups ≤ bound)
    (short : padding < 8)
    (all : runs_values runs ++ (written ++ take e.num_buffered_values e.buffered_values)
      ≡ vs ++ replicate padding 0) where
  abbrev whole : List ℕ
  whole = written ++ take e.num_buffered_values e.buffered_values

  pub finish_packed :
      (e' : RleEncoder) × ((flush_bit_packed_run true e >>= λ e2.
      ok (record e2 { repeat_count = 0 }))
        ≡ ok e')
      × (e'.bit_width ≡ e.bit_width)
      × Flushed head bound vs e'
  finish_packed =
      let (w, done, holds, same) =
        flush_closed (stream head e.bit_width runs) written e opened narrow small room groups few
          count size written_small (stream-IsByte head e.bit_width runs head_bytes) in
      (
        record e {
          bit_writer = w;
          num_buffered_values = 0;
          indicator_byte_pos = none;
          bit_packed_count = 0;
          repeat_count = 0;
        },
        bind_to (flush_bit_packed_run true e) _ _ done refl,
        refl,
        record {
          none_packed = refl;
          none_repeated = refl;
          none_buffered = refl;
          runs = runs ++ packed groups whole ∷ [];
          are_runs =
              All-append (IsRun e.bit_width) runs (packed groups whole ∷ []) are_runs
                ((omega (arith, few), size, All-append _ written _ written_small small), tt);
          padding = padding;
          short = short;
          values = runs_values-snoc runs (packed groups whole) ∙ all;
          fits = omega (
            arith,
            tight,
            ap length (runs_bytes-snoc e.bit_width runs (packed groups whole)),
            length-append (runs_bytes e.bit_width runs)
                (run_bytes e.bit_width (packed groups whole)),
            packed_length e.bit_width groups whole few,
          );
          holds =
              subst (λ l. Holds l w) (sym (stream-snoc head e.bit_width runs (packed groups whole)))
                holds;
        },
      )
