-- ===== src/Encodings/Levels/Framed.antt =====
-- src/encodings/levels.rs: the bytes of the runs behind their length, and on their own.

use parquet_rs.Memory.{BufferPtr, content, range}
use parquet_rs.Memory as Memory
use parquet_rs.Memory.Slices.{take_length, range-new}
use parquet_rs.BitUtil.Reader.{read_num_bytes}
use parquet_rs.Encodings.Levels.Encoder.{length_prefixed}
use parquet_rs.Encodings.Levels.Decoder.{as_usize, set_range}
use parquet_rs.Encodings.Rle.Decoder.{RleDecoder}
use parquet_rs.Encodings.Rle.Decoder as RleDecoding
use native.Mathlib.Nat.{mod-eq_of_lt}
use parquet_rs.Prelude.Bytes.{from_le, to_le, length-to_le, from_le-to_le}
use parquet_rs.Prelude.{
  ℕ, ◌+◌, ◌-◌, ◌^◌, ◌<◌, List, ◌++◌, length, length-append, take, drop, take_append_exact,
  drop_append_exact, ok, ◌>>◌, assert, le→leb, lt→ltb, if◌then◌else◌, ◌≡◌, sym, ap, ap₂, ◌∙◌, arith,
  bind_to,
}

take_front : (k : ℕ) (xs ys : List ℕ) → length xs ≡ k → take k (xs ++ ys) ≡ xs
take_front k xs ys h = ap (λ j. take j (xs ++ ys)) (sym h) ∙ take_append_exact xs ys

drop_front : (k : ℕ) (xs ys : List ℕ) → length xs ≡ k → drop k (xs ++ ys) ≡ ys
drop_front k xs ys h = ap (λ j. drop j (xs ++ ys)) (sym h) ∙ drop_append_exact xs ys

-- The length in front of the runs.
module _ (bytes : List ℕ) (few : length bytes < 2 ^ 31) where
  abbrev pub framed : List ℕ
  framed = to_le 4 (length bytes) ++ bytes

  pub length_framed : length framed ≡ 4 + length bytes
  length_framed =
      omega (arith, length-append (to_le 4 (length bytes)) bytes, length-to_le 4 (length bytes))

  pub length_prefixed_lem :
      (head : List ℕ) → length head ≡ 4 → length_prefixed (head ++ bytes) ≡ ok framed
  unfolding length_prefixed
  length_prefixed_lem head h =
      let size : length (head ++ bytes) - 4 ≡ length bytes =
        omega (arith, length-append head bytes, h) in
      ap (λ b. assert b >> ok (to_le 4 (length (head ++ bytes) - 4) ++ drop 4 (head ++ bytes)))
        (le→leb 4 (length (head ++ bytes)) (omega (arith, length-append head bytes, h)))
      ∙ ap₂ (λ (k : ℕ) (l : List ℕ). ok (to_le 4 k ++ l)) size (drop_front 4 head bytes h)

  pub read_length : read_num_bytes 4 framed ≡ ok (length bytes)
  unfolding read_num_bytes
  read_length =
      ap (λ b. assert b >> ok (from_le (take 4 framed)))
        (le→leb 4 (length framed) (omega (arith, length_framed)))
      ∙ ap (λ l. ok (from_le l))
          (take_front 4 (to_le 4 (length bytes)) bytes (length-to_le 4 (length bytes)))
      ∙ ap ok (from_le-to_le 4 (length bytes) ∙ mod-eq_of_lt (omega (arith, few)))

  pub as_usize_lem : as_usize (length bytes) ≡ length bytes
  as_usize_lem =
      ap (λ b. if b then length bytes else length bytes + (2 ^ 64 - 2 ^ 32))
        (lt→ltb (length bytes) (2 ^ 31) few)

  pub set_framed :
      (d0 d : RleDecoder)
      → RleDecoding.set_data bytes d0 ≡ ok d
      → set_range 4 (length bytes) (Memory.new framed) d0 ≡ ok d
  unfolding set_range
  set_framed d0 d e =
      let (p, ranged, held) = range-new framed 4 (length bytes) (omega (arith, length_framed)) in
      let same : take (length bytes) (drop 4 framed) ≡ bytes =
        ap (take (length bytes))
          (drop_front 4 (to_le 4 (length bytes)) bytes (length-to_le 4 (length bytes)))
        ∙ take_length bytes in
      bind_to (range 4 (length bytes) (Memory.new framed)) p _ ranged
        (bind_to (content p) bytes _ (held ∙ ap ok same) e)

pub set_whole :
    (bytes : List ℕ) (d0 d : RleDecoder)
    → RleDecoding.set_data bytes d0 ≡ ok d
    → set_range 0 (length bytes) (Memory.new bytes) d0 ≡ ok d
unfolding set_range
set_whole bytes d0 d e =
    let (p, ranged, held) = range-new bytes 0 (length bytes) (omega arith) in
    bind_to (range 0 (length bytes) (Memory.new bytes)) p _ ranged
      (bind_to (content p) bytes _ (held ∙ ap ok (take_length bytes)) e)
