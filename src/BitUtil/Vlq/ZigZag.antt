-- ===== src/BitUtil/Vlq/ZigZag.antt =====
-- src/util/bit_util.rs: the zigzag map of `put_zigzag_vlq_int` and the one back.
use parquet_rs.BitUtil.Vlq.{zigzag, unzigzag}
use parquet_rs.Prelude.{
  ℕ, ◌-◌, ◌*◌, ◌/◌, ◌%◌, ◌^◌, ◌≤◌, ◌<◌, bit_and, bit_xor, ◌≡◌, ap, ◌∙◌, arith, bit_and-one,
  bit_xor-ones, bit_xor-zero_right,
}
use native.Mathlib.Decide.{dec_le}

zigzag_positive : (v : ℕ) → v < 2 ^ 63 → zigzag v ≡ 2 * v
zigzag_positive v h = ground (arith, bit_xor-zero_right 64 (v * 2 % 2 ^ 64) (omega arith))

zigzag_negative : (v : ℕ) → 2 ^ 63 ≤ v → v < 2 ^ 64 → zigzag v ≡ 2 ^ 65 - 1 - 2 * v
zigzag_negative v h small = ground (arith, bit_xor-ones 64 (v * 2 % 2 ^ 64) (omega arith))

unzigzag_even : (u : ℕ) → u < 2 ^ 64 → u % 2 ≡ 0 → unzigzag u ≡ u / 2
unzigzag_even u h even =
    ap (bit_xor (u / 2))
      (let e : (2 ^ 64 - bit_and u 1) % 2 ^ 64 ≡ 0 = omega (arith, bit_and-one u) in e)
    ∙ bit_xor-zero_right 64 (u / 2) (omega arith)

unzigzag_odd : (u : ℕ) → u < 2 ^ 64 → u % 2 ≡ 1 → unzigzag u ≡ 2 ^ 64 - 1 - u / 2
unzigzag_odd u h odd =
    ap (bit_xor (u / 2))
      (let e : (2 ^ 64 - bit_and u 1) % 2 ^ 64 ≡ 2 ^ 64 - 1 = omega (arith, bit_and-one u) in e)
    ∙ bit_xor-ones 64 (u / 2) (omega arith)

pub zigzag-lt : (v : ℕ) → v < 2 ^ 64 → zigzag v < 2 ^ 64
zigzag-lt v h = elim (dec_le (2 ^ 63) v) [
  | yes negative ↦ omega (arith, zigzag_negative v negative h)
  | no positive ↦ omega (arith, zigzag_positive v (omega arith))
]

-- Every `i64` comes back.
pub unzigzag-zigzag : (v : ℕ) → v < 2 ^ 64 → unzigzag (zigzag v) ≡ v
unzigzag-zigzag v h = elim (dec_le (2 ^ 63) v) [
  | yes negative ↦
      let e = zigzag_negative v negative h in
      omega (arith, unzigzag_odd (zigzag v) (zigzag-lt v h) (omega (arith, e)), e)
  | no positive ↦
      let e = zigzag_positive v (omega arith) in
      omega (arith, unzigzag_even (zigzag v) (zigzag-lt v h) (omega (arith, e)), e)
]
