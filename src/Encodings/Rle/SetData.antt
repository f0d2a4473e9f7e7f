-- ===== src/Encodings/Rle/SetData.antt =====
-- src/encodings/rle.rs: what an `RleDecoder` is to return, and how `set_data` makes it return the
-- values of runs.
use parquet_rs.Encodings.Rle.Decoder.{RleDecoder, new, reader_for, set_data, reload, refill_fuel}
use parquet_rs.Encodings.Rle.Format.{Run, run_values, runs_values, runs_bytes, IsRun}
use parquet_rs.Encodings.Rle.Reading.{Reading}
use parquet_rs.Encodings.Rle.Reload.{reload_lem, reload_end}
use parquet_rs.Encodings.Rle.Refill.{with_reader}
use parquet_rs.BitUtil.Reader.{BitReader}
use parquet_rs.BitUtil.Reader
use parquet_rs.BitUtil.Reader.Position.{IsValid, position, new-IsValid}
use parquet_rs.Prelude.{
  ℕ, suc, ◌+◌, ◌*◌, ◌/◌, ◌≤◌, ◌<◌, List, [], ◌∷◌, ◌++◌, length, length-drop, drop, All, Bool, true,
  false, Option, none, some, ok, ◌≡◌, refl, ap, ap₂, arith, two_pow_pos,
}
use parquet_rs.Encodings.Rle.RunBytes.{runs_bytes-length, runs_bytes-IsByte}

fuel_of : Option BitReader → ℕ
fuel_of o = elim o [ none ↦ 1 | some r ↦ suc (suc r.total_bytes) ]

pub enough_fuel :
    {w : ℕ} {now : List ℕ} {runs : List Run} (d : RleDecoder)
    → Reading w now runs d
    → length runs < refill_fuel d
unfolding fuel_of
enough_fuel {w} {now} {runs} d reading = omega (
  arith,
  ap fuel_of reading.has_reader,
  runs_bytes-length w runs,
  ap length reading.others,
  length-drop ((position reading.reader + w * d.bit_packed_left + 7) / 8) reading.reader.buffer,
  reading.valid.fits,
)

-- The decoder still has these values to return, and then no others.
pub record Returns (w : ℕ) (vs : List ℕ) (d : RleDecoder) : Type 0 where
  pub now : List ℕ
  pub runs : List Run
  pub reading : Reading w now runs d
  pub are_runs : All (IsRun w) runs
  pub same : now ++ runs_values runs ≡ vs

-- A decoder that was given a reader of the runs' bytes, and has read nothing.
abbrev first_state : ℕ → BitReader → RleDecoder
first_state w r = record {
  bit_width = w;
  bit_reader = some r;
  rle_left = 0;
  bit_packed_left = 0;
  current_value = none;
}

first_Reading :
    (w : ℕ) (runs : List Run) (r : BitReader)
    → IsValid r
    → r.buffer ≡ runs_bytes w runs
    → position r ≡ 0
    → Reading w [] runs (first_state w r)
first_Reading w runs r valid same first = record {
  reader = r;
  value = 0;
  has_reader = refl;
  valid = valid;
  width = refl;
  has_value = λ h. absurd (omega (arith, h));
  small = two_pow_pos w;
  values = refl;
  room = omega (arith, valid.room);
  others =
      ap₂ (λ (k : ℕ) (b : List ℕ). drop k b)
        (let e : (position r + w * 0 + 7) / 8 ≡ 0 = omega (arith, first) in e) same;
}

set_data-reload :
    (bytes : List ℕ) (w : ℕ) (r : BitReader) (more : Bool) (d : RleDecoder)
    → Reader.new bytes ≡ ok r
    → reload (first_state w r) ≡ ok (more, d)
    → set_data bytes (new w) ≡ ok d
unfolding set_data reader_for new
set_data-reload bytes w r more d opened e = rw (opened, e) refl

-- `set_data` on a new decoder of a width up to 64 neither panics nor fails on the bytes of any
-- sequence of runs of that width, of fewer than 2 ^ 32 values each: the decoder then has the values
-- of the runs to return, in their order.
pub set_data_lem :
    (w : ℕ) (runs : List Run)
    → w ≤ 64
    → All (IsRun w) runs
    → (d : RleDecoder) × (set_data (runs_bytes w runs) (new w) ≡ ok d)
      × Returns w (runs_values runs) d
set_data_lem w [] narrow are_runs =
    let (r, opened, valid, same, first) = new-IsValid [] tt in
    let reading = first_Reading w [] r valid same first in
    (
      record (first_state w r) { bit_reader = some reading.reader },
      set_data-reload [] w r false (record (first_state w r) { bit_reader = some reading.reader })
          opened (reload_end w (first_state w r) reading),
      record {
        now = [];
        runs = [];
        reading = with_reader (first_state w r) reading;
        are_runs = tt;
        same = refl;
      },
    )
set_data_lem w (run ∷ runs) narrow are_runs =
    let (r, opened, valid, same, first) =
      new-IsValid (runs_bytes w (run ∷ runs)) (runs_bytes-IsByte w (run ∷ runs)) in
    let (d, e, reading) =
      reload_lem w run runs (first_state w r) narrow are_runs.0
        (first_Reading w (run ∷ runs) r valid same first) in
    (
      d,
      set_data-reload (runs_bytes w (run ∷ runs)) w r true d opened e,
      record {
        now = run_values run;
        runs = runs;
        reading = reading;
        are_runs = are_runs.1;
        same = refl;
      },
    )
