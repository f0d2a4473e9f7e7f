-- ===== src/Encodings/Rle/RunBytes.antt =====
-- The bytes of a sequence of runs, in the format of src/encodings/rle.rs.
use parquet_rs.Encodings.Rle.Format.{Run, repeated, packed, run_bytes, runs_bytes, spell}
use parquet_rs.BitUtil.Vlq.Format.{vlq, length-vlq_bytes, vlq_bytes-IsByte}
use parquet_rs.Prelude.{
  ℕ, ◌+◌, ◌*◌, ◌/◌, ◌≤◌, List, [], ◌∷◌, length, length-append, All, All-append, arith,
}
use parquet_rs.Prelude.Bytes.{IsByte, to_le, to_le-IsByte}

-- Every run takes a byte at least.
pub runs_bytes-length : (w : ℕ) (runs : List Run) → length runs ≤ length (runs_bytes w runs)
runs_bytes-length w [] = omega arith
runs_bytes-length w (repeated count v ∷ runs) = omega (
  arith,
  runs_bytes-length w runs,
  length-append (run_bytes w (repeated count v)) (runs_bytes w runs),
  length-append (vlq (2 * count)) (to_le ((w + 7) / 8) v),
  length-vlq_bytes 9 (2 * count),
)
runs_bytes-length w (packed groups vs ∷ runs) = omega (
  arith,
  runs_bytes-length w runs,
  length-append (run_bytes w (packed groups vs)) (runs_bytes w runs),
  length-append (vlq (2 * groups + 1)) (to_le (w * groups) (spell w vs)),
  length-vlq_bytes 9 (2 * groups + 1),
)

pub runs_bytes-IsByte : (w : ℕ) (runs : List Run) → All IsByte (runs_bytes w runs)
runs_bytes-IsByte w [] = tt
runs_bytes-IsByte w (repeated count v ∷ runs) =
    All-append IsByte (run_bytes w (repeated count v)) (runs_bytes w runs)
      (All-append IsByte (vlq (2 * count)) _ (vlq_bytes-IsByte 9 (2 * count))
        (to_le-IsByte ((w + 7) / 8) v))
      (runs_bytes-IsByte w runs)
runs_bytes-IsByte w (packed groups vs ∷ runs) =
    All-append IsByte (run_bytes w (packed groups vs)) (runs_bytes w runs)
      (All-append IsByte (vlq (2 * groups + 1)) _ (vlq_bytes-IsByte 9 (2 * groups + 1))
        (to_le-IsByte (w * groups) (spell w vs)))
      (runs_bytes-IsByte w runs)
