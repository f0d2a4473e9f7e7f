-- ===== src/Schema/Builder/Limit.antt =====
-- src/schema/types.rs: the number of digits that `build` allows a decimal in a FIXED_LEN_BYTE_ARRAY,
-- `(2f64.powi(8 * self.length - 1) - 1f64).log10().floor() as i32`. Powers of two are exact in an
-- `f64` up to the exponent 1023, and infinite above. Subtracting one and the logarithm round, and give
-- the same integer part: none of these powers is within a thousandth of a power of ten. Casts to `i32`
-- saturate, and NaN is cast to 0, as the language defines them.
use parquet_rs.Prelude.{
  ℕ, zero, suc, ◌+◌, ◌-◌, ◌*◌, ◌/◌, ◌%◌, ◌^◌, ltb, ℤ, pos, negsuc, to_i32, if◌then◌else◌,
}

-- The integer part of the logarithm of a number of at most `fuel + 1` digits.
unfoldable pub floor_log10 : ℕ → ℕ → ℕ
floor_log10 zero x = 0
floor_log10 (suc fuel) x = let rest = floor_log10 fuel (x / 10) in if ltb x 10 then 0 else suc rest

-- `8 * self.length - 1`, which wraps where the overflow check is off.
unfoldable pub sign_exponent : ℤ → ℤ
sign_exponent (pos n) = to_i32 (8 * n + (2 ^ 32 - 1))
sign_exponent (negsuc n) = to_i32 (2 ^ 32 - (8 * n + 9) % 2 ^ 32)

-- Below the exponent 0 the logarithm of a negative number is NaN, at 0 that of zero is negative
-- infinity, and above 1023 that of infinity is infinity.
unfoldable pub digits_of_power : ℤ → ℤ
unfolding floor_log10
digits_of_power (negsuc n) = pos 0
digits_of_power (pos zero) = negsuc (2 ^ 31 - 1)
digits_of_power (pos (suc n)) =
    if ltb (suc n) 1024 then pos (floor_log10 309 (2 ^ suc n - 1)) else pos (2 ^ 31 - 1)

unfoldable pub max_precision : ℤ → ℤ
unfolding sign_exponent digits_of_power
max_precision length = digits_of_power (sign_exponent length)
