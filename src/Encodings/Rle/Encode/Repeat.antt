-- ===== src/Encodings/Rle/Encode/Repeat.antt =====
-- src/encodings/rle.rs: `flush_rle_run`, when the writer ends with a whole run.
use parquet_rs.Encodings.Rle.Encoder.{RleEncoder, flush_rle_run}
use parquet_rs.Encodings.Rle.Encode.Space.{stream, stream-snoc}
use parquet_rs.Encodings.Rle.Format.{Run, repeated, IsRun, runs_bytes, runs_values}
use parquet_rs.Encodings.Rle.EncodeRun.{repeated_bytes, flush_fits}
use parquet_rs.Encodings.Rle.Encode.Holds.{Holds, Holds-Put}
use parquet_rs.Encodings.Rle.Encode.Space.{DoFit, room_for_repeated}
use parquet_rs.Encodings.Rle.Encode.State.{Common, Between}
use parquet_rs.BitUtil.Writer.{BitWriter}
use parquet_rs.BitUtil.Writer.Aligned.{aligned}
use parquet_rs.BitUtil.Scalar.Laws.{ceil_eight}
use parquet_rs.Prelude.{
  ◌-◌, ℕ, ◌+◌, ◌^◌, ◌≤◌, ◌<◌, List, [], ◌∷◌, ◌++◌, length, length-append, All, All-append, ok, ◌≡◌,
  sym, subst, arith,
}

-- The encoder has written one more run, the repetitions of its current value.
pub record Repeat (head : List ℕ) (runs : List Run) (e : RleEncoder) : Type 0 where
  pub writer : BitWriter
  pub done :
      flush_rle_run e
      ≡ ok (record e { bit_writer = writer; num_buffered_values = 0; repeat_count = 0 })
  pub same_room : writer.max_bytes ≡ e.bit_writer.max_bytes
  pub holds :
      Holds (stream head e.bit_width (runs ++ repeated e.repeat_count e.current_value ∷ [])) writer
  pub are_runs : All (IsRun e.bit_width) (runs ++ repeated e.repeat_count e.current_value ∷ [])

pub flush_rle_run-Repeat :
    (head : List ℕ) (n total : ℕ) (runs : List Run) (e : RleEncoder)
    → Common head n total e
    → All (IsRun e.bit_width) runs
    → DoFit e.bit_width runs
    → Between head runs e
    → 0 < e.repeat_count
    → length (runs_values runs) + e.repeat_count ≤ total
    → total < 2 ^ 32
    → Repeat head runs e
flush_rle_run-Repeat head n total runs e c are_runs do_fit between more within limit =
    let room =
      room_for_repeated e.bit_width e.repeat_count e.current_value total
        (e.bit_writer.max_bytes - length head) runs do_fit (omega (arith, c.room)) more within in
    let size = length-append head (runs_bytes e.bit_width runs) in
    let at : aligned e.bit_writer ≡ length (stream head e.bit_width runs) =
      omega (arith, ceil_eight e.bit_writer.bit_offset, between.holds.place) in
    let (w, done, put) =
      flush_fits e between.holds.valid more (omega (arith, within, limit))
        (omega (arith, room, at, size, c.room)) in
    record {
      writer = w;
      done = done;
      same_room = put.same_room;
      holds =
          subst (λ l. Holds l w)
            (sym (stream-snoc head e.bit_width runs (repeated e.repeat_count e.current_value)))
            (Holds-Put (stream head e.bit_width runs) (repeated_bytes e) e.bit_writer w
              between.holds put (omega (arith, room, size, c.room)));
      are_runs =
          All-append (IsRun e.bit_width) runs (repeated e.repeat_count e.current_value ∷ [])
            are_runs ((omega (arith, within, limit), c.current), tt);
    }
