-- ===== src/BitUtil/Scalar/Laws.antt =====
-- src/util/bit_util.rs: the helpers on single integers against their arithmetic meaning.
use parquet_rs.BitUtil.Scalar.{
  ceil, log2_loop, log2, trailing_bits, num_required_bits_from, num_required_bits,
}
use parquet_rs.Prelude.{
  ℕ, zero, suc, ◌+◌, ◌-◌, ◌*◌, ◌/◌, ◌%◌, ◌^◌, ◌≤◌, ◌<◌, bit_and, false, max, min, ltb, ltb→lt, leb,
  ◌==◌, Bool-cases, inl, inr, ◌≡◌, sym, ap, ◌∙◌, arith, two_pow_pos, two_pow_split, add_mul_div,
  add_mul_mod_mul, bit_and_shifted, bit_and-one, ap₂,
}
use native.Mathlib.Nat.{pow-suc, mod-eq_of_lt, div-eq_of_lt}
use native.Mathlib.Numerals.{add-one}
use native.Mathlib.Decide.{dec_lt}

-- `ceil` by a divisor that is not zero is the least quotient whose product reaches the value.
pub ceil_bounds :
    (value divisor : ℕ)
    → 0 < divisor
    → (value ≤ ceil value divisor * divisor) × (ceil value divisor * divisor < value + divisor)
unfolding ceil
ceil_bounds value divisor h = grind arith

pub ceil_eight : (n : ℕ) → ceil n 8 ≡ (n + 7) / 8
unfolding ceil
ceil_eight n = ground arith

log2_loop_lem :
    (fuel x result : ℕ)
    → x < 2 ^ fuel
    → (k : ℕ) × (log2_loop fuel x result ≡ result + k) × (x < 2 ^ k) × (2 ^ k ≤ max 1 (2 * x))
unfolding log2_loop
log2_loop_lem zero x result h = (0, ground arith, ground arith, ground arith)
log2_loop_lem (suc fuel) x result h = elim (Bool-cases (ltb 0 x)) [
  | inl more ↦
      let half : x / 2 < 2 ^ fuel = omega (arith, pow-suc 2 fuel) in
      let (k, e, above, below) = log2_loop_lem fuel (x / 2) (result + 1) half in
      (
        suc k,
        rw more (omega (arith, e)),
        omega (arith, pow-suc 2 k),
        omega (arith, pow-suc 2 k, ltb→lt 0 x more),
      )
  | inr done ↦ (0, rw done (omega arith), ground arith, ground arith)
]

-- `log2` of a `u64` that is not zero is the logarithm, rounded up: the least `r` with `x <= 2 ^ r`.
pub log2_bounds : (x : ℕ) → 0 < x → x < 2 ^ 64 → (x ≤ 2 ^ log2 x) × (2 ^ log2 x < 2 * x)
unfolding log2
log2_bounds x pos h = elim (Bool-cases (x == 1)) [
  | inl one ↦ rw one (ground arith)
  | inr more ↦
      let (k, e, above, below) = log2_loop_lem 64 ((x + 2 ^ 64 - 1) % 2 ^ 64) 0 (omega arith) in
      let same : log2_loop 64 ((x + 2 ^ 64 - 1) % 2 ^ 64) 0 ≡ k = omega (arith, e) in
      rw (more, same) (omega (arith, above, below))
]

shift_out_and_back : (v k : ℕ) → k ≤ 64 → v * 2 ^ (64 - k) % 2 ^ 64 / 2 ^ (64 - k) ≡ v % 2 ^ k
shift_out_and_back v k h =
    ap (λ (t : ℕ). t / 2 ^ (64 - k)) kept
    ∙ add_mul_div (2 ^ (64 - k)) 0 (v % 2 ^ k) (two_pow_pos (64 - k))
  where
    whole : 2 ^ 64 ≡ 2 ^ (64 - k) * 2 ^ k
    whole = omega (arith, two_pow_split k 64 h)

    kept : v * 2 ^ (64 - k) % 2 ^ 64 ≡ 0 + 2 ^ (64 - k) * (v % 2 ^ k)
    kept =
        ap₂ ◌%◌ (let e : v * 2 ^ (64 - k) ≡ 0 + 2 ^ (64 - k) * v = omega arith in e) whole
        ∙ add_mul_mod_mul (2 ^ (64 - k)) (2 ^ k) 0 v (two_pow_pos (64 - k)) (two_pow_pos k)

-- `trailing_bits` keeps the `num_bits` low bits of a `u64`, all of them from 64 on.
pub trailing_bits_lem :
    (v num_bits : ℕ) → v < 2 ^ 64 → trailing_bits v num_bits ≡ v % 2 ^ min num_bits 64
unfolding trailing_bits
trailing_bits_lem v num_bits h = elim (Bool-cases (num_bits == 0)) [
  | inl none_wanted ↦ rw none_wanted (by_min 0 (ground arith) (omega arith))
  | inr some_wanted ↦ rw some_wanted (elim (Bool-cases (leb 64 num_bits)) [
    | inl all ↦ rw all (by_min 64 (ground arith) (sym (mod-eq_of_lt h)))
    | inr part ↦
        rw part (by_min num_bits (ground arith) (shift_out_and_back v num_bits (ground arith)))
  ])
]
  where
    by_min : (k : ℕ) {r : ℕ} → min num_bits 64 ≡ k → r ≡ v % 2 ^ k → r ≡ v % 2 ^ min num_bits 64
    by_min k e p = p ∙ ap (λ (t : ℕ). v % 2 ^ t) (sym e)

num_required_bits_from_lem :
    (i x : ℕ)
    → x < 2 ^ i
    → (x < 2 ^ num_required_bits_from i x) × (2 ^ num_required_bits_from i x ≤ max 1 (2 * x))
unfolding num_required_bits_from
num_required_bits_from_lem zero x h = omega arith
num_required_bits_from_lem (suc i) x h = elim (Bool-cases (bit_and x (2 ^ i) == 0)) [
  | inl clear ↦
      rw clear
        (num_required_bits_from_lem i x (grind (arith, digit, clear, pow-suc 2 i, two_pow_pos i)))
  | inr found ↦ rw found (rw add-one h, rw add-one (omega (arith, pow-suc 2 i, large found)))
]
  where
    digit : bit_and x (2 ^ i) ≡ x / 2 ^ i % 2 * 2 ^ i
    digit =
        ap (bit_and x) (let e : 2 ^ i ≡ 1 * 2 ^ i = omega arith in e)
        ∙ bit_and_shifted i x 1
        ∙ ap (λ (t : ℕ). t * 2 ^ i) (bit_and-one (x / 2 ^ i))

    large : (bit_and x (2 ^ i) == 0) ≡ false → 2 ^ i ≤ x
    large found = elim (dec_lt x (2 ^ i)) [
      | yes small ↦ ground (arith, digit, div-eq_of_lt small, found)
      | no big ↦ omega arith
    ]

-- `num_required_bits` is the number of binary digits of a `u64`: the least `r` with `x < 2 ^ r`.
pub num_required_bits_bounds :
    (x : ℕ) → x < 2 ^ 64 → (x < 2 ^ num_required_bits x) × (2 ^ num_required_bits x ≤ max 1 (2 * x))
unfolding num_required_bits
num_required_bits_bounds x h = num_required_bits_from_lem 64 x h
