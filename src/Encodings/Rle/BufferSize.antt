-- ===== src/Encodings/Rle/BufferSize.antt =====
-- src/encodings/rle.rs: the buffer sizes of `RleEncoder`.
use parquet_rs.Encodings.Rle.Encoder.{min_buffer_size}
use parquet_rs.Encodings.Rle.Format.{Run, repeated, packed, run_bytes, spell}
use parquet_rs.BitUtil.Vlq.Format.{vlq, length-vlq_bytes, vlq_bytes_last}
use parquet_rs.BitUtil.Scalar.Laws.{ceil_eight}
use parquet_rs.Prelude.{ℕ, ◌+◌, ◌*◌, ◌/◌, ◌≤◌, length, length-append, ap, arith}
use parquet_rs.Prelude.Bytes.{to_le, length-to_le}
use native.Mathlib.Nat.{mul-le-mul_left}

-- The groups that an indicator of one byte can count.
abbrev pub IsShort : Run → Type 0
IsShort (repeated count value) = Unit
IsShort (packed groups values) = groups ≤ 63

-- `min_buffer_size` is enough for the bytes of any single run: of repeated values, or of 63 groups
-- at most.
pub min_buffer_size_lem :
    (w : ℕ) (run : Run) → IsShort run → length (run_bytes w run) ≤ min_buffer_size w
unfolding min_buffer_size
min_buffer_size_lem w (repeated count v) short = omega (
  arith,
  ceil_eight w,
  length-append (vlq (2 * count)) (to_le ((w + 7) / 8) v),
  length-vlq_bytes 9 (2 * count),
  length-to_le ((w + 7) / 8) v,
)
min_buffer_size_lem w (packed groups vs) short = omega (
  arith,
  ceil_eight (512 * w),
  length-append (vlq (2 * groups + 1)) (to_le (w * groups) (spell w vs)),
  ap length (vlq_bytes_last 9 (2 * groups + 1) (omega arith)),
  length-to_le (w * groups) (spell w vs),
  mul-le-mul_left w short,
)
