-- ===== src/Encodings/Rle/Refill.antt =====
-- src/encodings/rle.rs: the loop of `RleDecoder::get` that loads the next run.
use parquet_rs.Encodings.Rle.Decoder.{RleDecoder, reload, refill}
use parquet_rs.Encodings.Rle.Format.{Run, run_values, runs_values, IsRun}
use parquet_rs.Encodings.Rle.Reading.{Reading, spent_lem}
use parquet_rs.Encodings.Rle.Reload.{reload_lem, reload_end}
use parquet_rs.BitUtil.Batch.Fields.{fields, length-fields}
use parquet_rs.BitUtil.Reader.Position.{position}
use parquet_rs.Prelude.{
  ℕ, zero, suc, ◌≤◌, ◌<◌, List, [], ◌∷◌, ◌++◌, length, length-append, length-replicate, replicate,
  All, Bool, true, false, some, ok, ◌==◌, ◌&&◌, if◌then◌else◌, ◌≡◌, refl, ap, ◌∙◌, arith,
}

-- What `refill` ends in: a value is pending, or everything was read.
pub record Refilled (w : ℕ) (all : List ℕ) (more : Bool) (d : RleDecoder) : Type 0 where
  pub now : List ℕ
  pub runs : List Run
  pub reading : Reading w now runs d
  pub are_runs : All (IsRun w) runs
  pub same : now ++ runs_values runs ≡ all
  pub ready : if more then 0 < length now else (now ++ runs_values runs ≡ [])

pending_not_empty :
    {w v : ℕ} {now : List ℕ} {runs : List Run} (d : RleDecoder)
    → Reading w (v ∷ now) runs d
    → (d.rle_left == 0 && d.bit_packed_left == 0) ≡ false
pending_not_empty d reading = ground (
  arith,
  ap length reading.values,
  length-append (replicate d.rle_left reading.value)
      (fields reading.reader.buffer d.bit_width d.bit_packed_left (position reading.reader)),
  length-replicate d.rle_left reading.value,
  length-fields reading.reader.buffer d.bit_width d.bit_packed_left (position reading.reader),
)

pending_empty :
    {w : ℕ} {runs : List Run} (d : RleDecoder)
    → Reading w [] runs d
    → (d.rle_left == 0 && d.bit_packed_left == 0) ≡ true
pending_empty d reading = rw ((spent_lem d reading).0, (spent_lem d reading).1) refl

refill-suc :
    (fuel : ℕ) (d d1 : RleDecoder)
    → (d.rle_left == 0 && d.bit_packed_left == 0) ≡ true
    → reload d ≡ ok (true, d1)
    → refill (suc fuel) d ≡ refill fuel d1
unfolding refill
refill-suc fuel d d1 spent e = rw (spent, refill, e) refl

pub with_reader :
    {w : ℕ} {now : List ℕ} {runs : List Run} (d : RleDecoder) (reading : Reading w now runs d)
    → Reading w now runs (record d { bit_reader = some reading.reader })
with_reader d reading = record {
  reader = reading.reader;
  value = reading.value;
  has_reader = refl;
  valid = reading.valid;
  width = reading.width;
  has_value = reading.has_value;
  small = reading.small;
  values = reading.values;
  room = reading.room;
  others = reading.others;
}

pub refill_lem :
    (w : ℕ) (now : List ℕ) (runs : List Run) (fuel : ℕ) (d : RleDecoder)
    → w ≤ 64
    → length runs < fuel
    → All (IsRun w) runs
    → Reading w now runs d
    → (more : Bool) × (d' : RleDecoder) × (refill fuel d ≡ ok (more, d'))
      × Refilled w (now ++ runs_values runs) more d'
refill_lem w now runs zero d narrow enough are_runs reading = absurd (omega (arith, enough))
refill_lem w (v ∷ now) runs (suc fuel) d narrow enough are_runs reading = (
  true,
  d,
  unfold refill in rw (pending_not_empty d reading, refill) refl,
  record {
    now = v ∷ now;
    runs = runs;
    reading = reading;
    are_runs = are_runs;
    same = refl;
    ready = omega arith;
  },
)
refill_lem w [] [] (suc fuel) d narrow enough are_runs reading = (
  false,
  record d { bit_reader = some reading.reader },
  unfold refill in rw (pending_empty d reading, refill, reload_end w d reading) refl,
  record {
    now = [];
    runs = [];
    reading = with_reader d reading;
    are_runs = tt;
    same = refl;
    ready = refl;
  },
)
refill_lem w [] (run ∷ runs) (suc fuel) d narrow enough are_runs reading =
    let (d1, e1, reading1) = reload_lem w run runs d narrow are_runs.0 reading in
    let (more, d2, e2, done) =
      refill_lem w (run_values run) runs fuel d1 narrow (omega (arith, enough)) are_runs.1
        reading1 in
    (more, d2, refill-suc fuel d d1 (pending_empty d reading) e1 ∙ e2, done)
