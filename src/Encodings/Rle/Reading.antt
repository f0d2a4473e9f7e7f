-- ===== src/Encodings/Rle/Reading.antt =====
-- src/encodings/rle.rs: the state of an `RleDecoder` in the midst of a run.
use parquet_rs.Encodings.Rle.Decoder.{RleDecoder}
use parquet_rs.Encodings.Rle.Format.{Run, runs_bytes}
use parquet_rs.BitUtil.Batch.Fields.{fields, length-fields}
use parquet_rs.BitUtil.Reader.{BitReader}
use parquet_rs.BitUtil.Reader.Position.{IsValid, position}
use parquet_rs.BitUtil.Vlq.Get.{unread}
use parquet_rs.BitUtil.Scalar.Laws.{ceil_eight}
use parquet_rs.Prelude.{
  ℕ, ◌+◌, ◌*◌, ◌/◌, ◌^◌, ◌≤◌, ◌<◌, List, [], ◌++◌, length, length-append, length-replicate, drop,
  replicate, some, ◌≡◌, ap, ◌∙◌, arith,
}

-- The values of the run that is being read.
abbrev pub pending : RleDecoder → BitReader → ℕ → List ℕ
pending d r value =
    replicate d.rle_left value ++ fields r.buffer d.bit_width d.bit_packed_left (position r)

-- The decoder is in the midst of a run, whose values from here on are `now`, and `runs` follow it.
pub record Reading (w : ℕ) (now : List ℕ) (runs : List Run) (d : RleDecoder) : Type 0 where
  pub reader : BitReader
  pub value : ℕ
  pub has_reader : d.bit_reader ≡ some reader
  pub valid : IsValid reader
  pub width : d.bit_width ≡ w
  pub has_value : 0 < d.rle_left → d.current_value ≡ some value
  pub small : value < 2 ^ w
  pub values : now ≡ pending d reader value
  pub room : position reader + w * d.bit_packed_left ≤ 8 * reader.total_bytes
  pub others :
      drop ((position reader + w * d.bit_packed_left + 7) / 8) reader.buffer ≡ runs_bytes w runs

pub unread_at :
    (r : BitReader) (rest : List ℕ)
    → unread r ≡ rest
    → drop ((position r + 0 + 7) / 8) r.buffer ≡ rest
unread_at r rest h = ap (λ (k : ℕ). drop k r.buffer) (omega (arith, ceil_eight r.bit_offset)) ∙ h

-- No value is pending.
pub spent_lem :
    {w : ℕ} {runs : List Run} (d : RleDecoder)
    → Reading w [] runs d
    → (d.rle_left ≡ 0) × (d.bit_packed_left ≡ 0)
spent_lem d reading = omega (
  arith,
  ap length reading.values,
  length-append (replicate d.rle_left reading.value)
      (fields reading.reader.buffer d.bit_width d.bit_packed_left (position reading.reader)),
  length-replicate d.rle_left reading.value,
  length-fields reading.reader.buffer d.bit_width d.bit_packed_left (position reading.reader),
)

pub next_run :
    {w : ℕ} {runs : List Run} (d : RleDecoder) (reading : Reading w [] runs d)
    → unread reading.reader ≡ runs_bytes w runs
next_run {w} {runs} d reading =
    ap (λ (k : ℕ). drop k reading.reader.buffer)
      (omega (
        arith,
        ceil_eight reading.reader.bit_offset,
        ap (λ (k : ℕ). w * k) (spent_lem d reading).1,
      ))
    ∙ reading.others
