-- ===== src/BitUtil/Writer/Invariant.antt =====
-- src/util/bit_util.rs: the state invariant of `BitWriter`, and the bit string that a writer holds:
-- its value as a number, and its length.
use parquet_rs.BitUtil.Writer.{BitWriter, memcpy_value}
use parquet_rs.Prelude.{
  ℕ, ◌+◌, ◌*◌, ◌%◌, ◌^◌, ◌≤◌, ◌<◌, List, ◌++◌, length, take, drop, All, All-append, All-take,
  All-drop, length-append, length-take, length-drop, take_append_exact, ok, ◌≡◌, sym, ap, ap₂, ◌∙◌,
  arith, two_pow-add, add_mul-lt,
}
use parquet_rs.Prelude.Bytes.{
  IsByte, from_le, to_le, length-to_le, to_le-IsByte, from_le-to_le, from_le-append, from_le-lt,
  byte_pow-eq-two_pow,
}
use mathlib.Core.List.{append_assoc}

pub record IsValid (w : BitWriter) : Type 0 where
  pub fits : length w.buffer ≡ w.max_bytes
  pub bytes : All IsByte w.buffer
  pub pending : w.bit_offset < 64
  pub buffered : w.buffered_values < 2 ^ w.bit_offset
  pub room : 8 * w.byte_offset + w.bit_offset ≤ 8 * w.max_bytes
  pub started : w.start ≤ w.byte_offset

-- How many bits of the buffer are taken, the ones before `start` included.
abbrev pub position : BitWriter → ℕ
position w = 8 * w.byte_offset + w.bit_offset

-- These bits as one number, the first one lowest.
abbrev pub written : BitWriter → ℕ
written w = from_le (take w.byte_offset w.buffer) + 2 ^ (8 * w.byte_offset) * w.buffered_values

-- The buffer after `memcpy_value`.
abbrev pub copied : ℕ → ℕ → List ℕ → ℕ → List ℕ
copied source n buffer offset = take offset buffer ++ (to_le n source ++ drop (offset + n) buffer)

module _ (source n : ℕ) (buffer : List ℕ) (offset : ℕ) (fits : offset + n ≤ length buffer) where
  pub memcpy_value_lem : memcpy_value source n buffer offset ≡ ok (copied source n buffer offset)
  unfolding memcpy_value
  memcpy_value_lem = ground arith

  length_front : length (take offset buffer) ≡ offset
  length_front = omega (arith, length-take offset buffer)

  pub length-copied : length (copied source n buffer offset) ≡ length buffer
  length-copied = omega (
    arith,
    length-append (take offset buffer) (to_le n source ++ drop (offset + n) buffer),
    length-append (to_le n source) (drop (offset + n) buffer),
    length-to_le n source,
    length-drop (offset + n) buffer,
    length_front,
  )

  pub copied-IsByte : All IsByte buffer → All IsByte (copied source n buffer offset)
  copied-IsByte h = All-append IsByte (take offset buffer) _ (All-take IsByte offset buffer h) (
      All-append IsByte (to_le n source) _ (to_le-IsByte n source)
        (All-drop IsByte (offset + n) buffer h))

  -- The bytes before the copy stay.
  pub take-copied_front : take offset (copied source n buffer offset) ≡ take offset buffer
  take-copied_front =
      ap (λ (k : ℕ). take k (copied source n buffer offset)) (sym length_front)
      ∙ take_append_exact (take offset buffer) _

  pub take-copied :
      take (offset + n) (copied source n buffer offset) ≡ take offset buffer ++ to_le n source
  take-copied =
      ap₂ take whole (sym (append_assoc (take offset buffer) (to_le n source) _))
      ∙ take_append_exact (take offset buffer ++ to_le n source) _
    where
      whole : offset + n ≡ length (take offset buffer ++ to_le n source)
      whole = omega (
        arith,
        length-append (take offset buffer) (to_le n source),
        length-to_le n source,
        length_front,
      )

  -- The bytes up to the end of the copy, as a number.
  pub from_le-take-copied :
      from_le (take (offset + n) (copied source n buffer offset))
      ≡ from_le (take offset buffer) + 2 ^ (8 * offset) * (source % 2 ^ (8 * n))
  from_le-take-copied =
      ap from_le take-copied
      ∙ from_le-append (take offset buffer) (to_le n source)
      ∙ ap₂ (λ (p x : ℕ). from_le (take offset buffer) + p * x)
          (ap (λ (k : ℕ). 256 ^ k) length_front ∙ byte_pow-eq-two_pow offset)
          (from_le-to_le n source ∙ ap (λ (p : ℕ). source % p) (byte_pow-eq-two_pow n))

-- The bit string is as long as it says.
pub written-lt : {w : BitWriter} → IsValid w → written w < 2 ^ position w
written-lt {w} v = omega (
  arith,
  add_mul-lt (2 ^ (8 * w.byte_offset)) (2 ^ w.bit_offset) (from_le front) w.buffered_values front-lt
      v.buffered,
  two_pow-add (8 * w.byte_offset) w.bit_offset,
)
  where
    front : List ℕ
    front = take w.byte_offset w.buffer

    front-lt : from_le front < 2 ^ (8 * w.byte_offset)
    front-lt = omega (
      arith,
      from_le-lt front (All-take IsByte w.byte_offset w.buffer v.bytes),
      ap (λ (k : ℕ). 256 ^ k)
          (length_front 0 0 w.buffer w.byte_offset (omega (arith, v.fits, v.room))),
      byte_pow-eq-two_pow w.byte_offset,
    )
