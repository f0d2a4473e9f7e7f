-- ===== src/BitUtil/Scalar.antt =====
-- src/util/bit_util.rs: the functions on single integers and on bit arrays. `ceil` is only ever
-- called on lengths, so its `i64` arguments are numbers here.
pub mod Laws
pub mod ArrayBit
use parquet_rs.Prelude.{
  ℕ, zero, suc, ◌+◌, ◌-◌, ◌*◌, ◌/◌, ◌%◌, ◌^◌, List, Outcome, ok, panic, get_elem?, set, unwrap,
  ◌>>=◌, bit_and, bit_or, ltb, leb, ◌==◌, if◌then◌else◌, not,
}

-- Both divisions panic on a zero divisor.
unfoldable pub ceil : ℕ → ℕ → ℕ
ceil value divisor =
    let result = value / divisor in if not (value % divisor == 0) then result + 1 else result

-- `while x > 0 { x >>= 1; result += 1 }`; a `u64` is used up after 64 rounds.
unfoldable pub log2_loop : ℕ → ℕ → ℕ → ℕ
log2_loop zero x result = result
log2_loop (suc fuel) x result =
    let rest = log2_loop fuel (x / 2) (result + 1) in if ltb 0 x then rest else result

-- `x -= 1` wraps at zero, where the overflow check is off.
unfoldable pub log2 : ℕ → ℕ
unfolding log2_loop
log2 x = if x == 1 then 0 else log2_loop 64 ((x + 2 ^ 64 - 1) % 2 ^ 64) 0

unfoldable pub trailing_bits : ℕ → ℕ → ℕ
trailing_bits v num_bits =
    if num_bits == 0
    then 0
    else if leb 64 num_bits
    then v
    else let n = 64 - num_bits in v * 2 ^ n % 2 ^ 64 / 2 ^ n

-- The loop `for i in (0..64).rev()`, with `i` rounds left.
unfoldable pub num_required_bits_from : ℕ → ℕ → ℕ
num_required_bits_from zero x = 0
num_required_bits_from (suc i) x =
    let rest = num_required_bits_from i x in if not (bit_and x (2 ^ i) == 0) then i + 1 else rest

unfoldable pub num_required_bits : ℕ → ℕ
unfolding num_required_bits_from
num_required_bits x = num_required_bits_from 64 x

-- `bits[i / 8] |= 1 << (i % 8)`
unfoldable pub set_array_bit : List ℕ → ℕ → Outcome (List ℕ)
set_array_bit bits i = do
  byte ← unwrap (get_elem? bits (i / 8))
  ok (set bits (i / 8) (bit_or byte (2 ^ (i % 8))))

-- `bits[i / 8] &= !(1 << (i % 8))`, the complement taken in a byte.
unfoldable pub unset_array_bit : List ℕ → ℕ → Outcome (List ℕ)
unset_array_bit bits i = do
  byte ← unwrap (get_elem? bits (i / 8))
  ok (set bits (i / 8) (bit_and byte (255 - 2 ^ (i % 8))))

-- `v.checked_shr(k).unwrap_or(0)` and `v.wrapping_shl(k)` on `u64`.
abbrev pub checked_shr : ℕ → ℕ → ℕ
checked_shr v k = if ltb k 64 then v / 2 ^ k else 0

abbrev pub wrapping_shl : ℕ → ℕ → ℕ
wrapping_shl v k = v * 2 ^ (k % 64) % 2 ^ 64
