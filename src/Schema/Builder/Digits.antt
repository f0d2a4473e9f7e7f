-- ===== src/Schema/Builder/Digits.antt =====
-- src/schema/types.rs: the limit on a decimal's digits in a FIXED_LEN_BYTE_ARRAY, and what its bytes
-- hold.
use parquet_rs.Schema.Builder.Annotated.{UpTo}
use parquet_rs.Schema.Builder.Limit.{floor_log10, sign_exponent, digits_of_power, max_precision}
use native.Mathlib.Nat.{pow-suc}
use native.Mathlib.Decide.{dec_le}
use parquet_rs.Prelude.{
  ℕ, zero, suc, ◌+◌, ◌-◌, ◌*◌, ◌/◌, ◌%◌, ◌^◌, ◌≤◌, ◌<◌, ◌≡◌, refl, sym, ap, ◌∙◌, ◌↔◌, true, false,
  ℤ, pos, negsuc, le_int, ltb, le→leb, leb→le, lt→ltb, ltb→lt, ltb→le, le→ltb, Bool-cases, inl, inr,
  arith, two_pow_mono, subst,
}

ten_pow_pos : (k : ℕ) → 0 < 10 ^ k
ten_pow_pos zero = omega arith
ten_pow_pos (suc k) = omega (arith, pow-suc 10 k, ten_pow_pos k)

ten_pow_step : (a k : ℕ) → 10 ^ a ≤ 10 ^ (k + a)
ten_pow_step a zero = omega (arith, ap (λ (t : ℕ). 10 ^ t) (let e : 0 + a ≡ a = omega arith in e))
ten_pow_step a (suc k) = omega (
  arith,
  ap (λ (t : ℕ). 10 ^ t) (let e : suc k + a ≡ suc (k + a) = omega arith in e),
  pow-suc 10 (k + a),
  ten_pow_step a k,
)

ten_pow_mono : (a b : ℕ) → a ≤ b → 10 ^ a ≤ 10 ^ b
ten_pow_mono a b h = omega (
  arith,
  ten_pow_step a (b - a),
  ap (λ (t : ℕ). 10 ^ t) (let e : b - a + a ≡ b = omega (arith, h) in e),
)

floor_log10-le : (fuel x : ℕ) → 0 < x → 10 ^ floor_log10 fuel x ≤ x
unfolding floor_log10
floor_log10-le zero x h = omega (arith, h)
floor_log10-le (suc fuel) x h = elim (Bool-cases (ltb x 10)) [
  | inl small ↦ rw small (omega (arith, h))
  | inr large ↦ rw large (
      omega (
        arith,
        pow-suc 10 (floor_log10 fuel (x / 10)),
        floor_log10-le fuel (x / 10) (omega (arith, ltb→le x 10 large)),
      ))
]

floor_log10-lt : (fuel x : ℕ) → x < 10 ^ (fuel + 1) → x < 10 ^ (floor_log10 fuel x + 1)
unfolding floor_log10
floor_log10-lt zero x h = h
floor_log10-lt (suc fuel) x h = elim (Bool-cases (ltb x 10)) [
  | inl small ↦ rw small (omega (arith, ltb→lt x 10 small))
  | inr large ↦
      let deep : x < 10 * 10 ^ (fuel + 1) = omega (
        arith,
        h,
        ap (λ (t : ℕ). 10 ^ t) (let e : suc fuel + 1 ≡ suc (fuel + 1) = omega arith in e),
        pow-suc 10 (fuel + 1),
      ) in
      let rest = floor_log10-lt fuel (x / 10) (omega (arith, deep)) in
      rw large (
        omega (
          arith,
          rest,
          ap (λ (t : ℕ). 10 ^ t)
              (let e : suc (floor_log10 fuel (x / 10)) + 1 ≡ suc (floor_log10 fuel (x / 10) + 1) =
                  omega arith in
                e),
          pow-suc 10 (floor_log10 fuel (x / 10) + 1),
        ))
]

-- A logarithm of at least `d` is that of a number of more than `d` digits.
floor_log10_iff :
    (fuel x d : ℕ) → 0 < x → x < 10 ^ (fuel + 1) → (d ≤ floor_log10 fuel x) ↔ (10 ^ d ≤ x)
floor_log10_iff fuel x d some_x enough = (
  λ h. omega (arith, ten_pow_mono d (floor_log10 fuel x) h, floor_log10-le fuel x some_x),
  λ h. elim (dec_le d (floor_log10 fuel x)) [
    | yes le ↦ le
    | no gt ↦ absurd (
        omega (
          arith,
          h,
          floor_log10-lt fuel x enough,
          ten_pow_mono (floor_log10 fuel x + 1) d (omega (arith, gt)),
        ))
  ],
)

sign_exponent-suc : (m : ℕ) → suc m < 2 ^ 28 → sign_exponent (pos (suc m)) ≡ pos (suc (8 * m + 6))
unfolding sign_exponent
sign_exponent-suc m small =
    let e : (8 * suc m + (2 ^ 32 - 1)) % 2 ^ 32 ≡ suc (8 * m + 6) = omega (arith, small) in
    let positive : ltb (suc (8 * m + 6)) (2 ^ 31) ≡ true =
      lt→ltb (suc (8 * m + 6)) (2 ^ 31) (omega (arith, small)) in
    rw (e, positive) refl

max_precision-suc :
    (m : ℕ) → suc m < 2 ^ 28 → max_precision (pos (suc m)) ≡ digits_of_power (pos (suc (8 * m + 6)))
unfolding max_precision
max_precision-suc m small = ap digits_of_power (sign_exponent-suc m small)

max_precision-le :
    (m : ℕ)
    → m ≤ 127
    → max_precision (pos (suc m)) ≡ pos (floor_log10 309 (2 ^ suc (8 * m + 6) - 1))
unfolding digits_of_power
max_precision-le m le =
    let below : ltb (suc (8 * m + 6)) 1024 ≡ true =
      lt→ltb (suc (8 * m + 6)) 1024 (omega (arith, le)) in
    max_precision-suc m (omega (arith, le)) ∙ rw below refl

max_precision-gt :
    (m : ℕ) → suc m < 2 ^ 28 → 127 < m → max_precision (pos (suc m)) ≡ pos (2 ^ 31 - 1)
unfolding digits_of_power
max_precision-gt m small gt =
    let above : ltb (suc (8 * m + 6)) 1024 ≡ false =
      le→ltb (suc (8 * m + 6)) 1024 (omega (arith, gt)) in
    max_precision-suc m small ∙ rw above refl

-- Two's complement of a number of bytes, of which the code's limit covers 128, and the rest none.
abbrev pub HoldsDigits : ℤ → ℕ → Type 0
HoldsDigits (pos n) digits = n ≤ 128 → 10 ^ digits < 2 ^ (8 * n - 1)
HoldsDigits (negsuc n) digits = ⊥

power_bound : (m : ℕ) → m ≤ 127 → 2 ^ suc (8 * m + 6) - 1 < 10 ^ (309 + 1)
power_bound m le = omega (
  arith,
  two_pow_mono (suc (8 * m + 6)) 1023 (omega (arith, le)),
  ltb→lt (2 ^ 1023) (10 ^ 310) refl,
)

limit_zero : (d : ℕ) → 0 < d → UpTo max_precision (pos 0) d ↔ HoldsDigits (pos 0) d
unfolding max_precision sign_exponent digits_of_power
limit_zero d some_digits = (
  λ h le. absurd (omega (arith, some_digits, leb→le d 0 h)),
  λ h. absurd (omega (arith, h (omega arith), ten_pow_pos d)),
)

limit_suc :
    (m d : ℕ)
    → suc m < 2 ^ 28
    → d < 2 ^ 31
    → UpTo max_precision (pos (suc m)) d ↔ HoldsDigits (pos (suc m)) d
limit_suc m d small digits_small = elim (dec_le m 127) [
  | yes le ↦
      let x = 2 ^ suc (8 * m + 6) - 1 in
      let e = max_precision-le m le in
      let exponent : 8 * suc m - 1 ≡ suc (8 * m + 6) = omega arith in
      let same = ap (λ (t : ℕ). 2 ^ t) exponent in
      let large = two_pow_mono 1 (suc (8 * m + 6)) (omega arith) in
      let l = floor_log10_iff 309 x d (omega (arith, large)) (power_bound m le) in
      (
        λ h k.
            let under = subst (λ z. le_int (pos d) z ≡ true) e h in
            omega (arith, same, large, l.0 (leb→le d (floor_log10 309 x) under)),
        λ h.
            let under = l.1 (omega (arith, same, large, h (omega (arith, le)))) in
            subst (λ z. le_int (pos d) z ≡ true) (sym e) (le→leb d (floor_log10 309 x) under),
      )
  | no gt ↦
      let e = max_precision-gt m small (omega (arith, gt)) in
      (
        λ h k. absurd (omega (arith, k, gt)),
        λ h.
            subst (λ z. le_int (pos d) z ≡ true) (sym e)
              (le→leb d (2 ^ 31 - 1) (omega (arith, digits_small))),
      )
]

pub limit_lem :
    (n d : ℕ)
    → n < 2 ^ 28
    → 0 < d
    → d < 2 ^ 31
    → UpTo max_precision (pos n) d ↔ HoldsDigits (pos n) d
limit_lem zero d small some_digits digits_small = limit_zero d some_digits
limit_lem (suc m) d small some_digits digits_small = limit_suc m d small digits_small
