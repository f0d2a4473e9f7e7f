-- ===== src/BitUtil/Vlq.antt =====
-- src/util/bit_util.rs: variable-length integers, `put_vlq_int`, `get_vlq_int` and their zigzag
-- variants. An `i64` is its 64-bit pattern.
pub mod Format
pub mod Put
pub mod Get
pub mod ZigZag
use parquet_rs.Prelude.{
  ℕ, zero, suc, ◌+◌, ◌-◌, ◌*◌, ◌/◌, ◌%◌, ◌^◌, Bool, true, false, not, ◌&&◌, Option, none, some,
  Outcome, ok, panic, running, ◌>>=◌, ◌>>◌, assert, bit_and, bit_or, bit_xor, leb, ◌==◌,
  if◌then◌else◌,
}
use parquet_rs.BitUtil.Writer.{BitWriter, put_aligned}
use parquet_rs.BitUtil.Reader.{BitReader, get_aligned}

abbrev pub max_vlq_byte_len : ℕ
max_vlq_byte_len = 10

-- The rounds of `put_vlq_int`; a `u64` is below 128 after nine. The writes go on when one failed.
unfoldable pub put_vlq_loop : ℕ → ℕ → Bool → BitWriter → Outcome (Bool × BitWriter)
put_vlq_loop zero v result w = do
  (done, w') ← put_aligned (bit_and v 0x7F % 256) 1 w
  ok (result && done, w')
put_vlq_loop (suc fuel) v result w = elim (not (bit_and v 0xFFFF_FFFF_FFFF_FF80 == 0)) [
  | true ↦ (do
    (done, w') ← put_aligned (bit_or (bit_and v 0x7F) 0x80 % 256) 1 w
    put_vlq_loop fuel (v / 2 ^ 7) (result && done) w')
  | false ↦ (do (done, w') ← put_aligned (bit_and v 0x7F % 256) 1 w; ok (result && done, w'))
]

unfoldable pub put_vlq_int : ℕ → BitWriter → Outcome (Bool × BitWriter)
unfolding put_vlq_loop
put_vlq_int v w = put_vlq_loop 9 v true w

-- `v >> 63` on an `i64`: all ones for a negative number.
abbrev pub sign_bits : ℕ → ℕ
sign_bits v = if leb (2 ^ 63) v then 2 ^ 64 - 1 else 0

-- `((v << 1) ^ (v >> 63)) as u64`
abbrev pub zigzag : ℕ → ℕ
zigzag v = bit_xor (v * 2 % 2 ^ 64) (sign_bits v)

unfoldable pub put_zigzag_vlq_int : ℕ → BitWriter → Outcome (Bool × BitWriter)
put_zigzag_vlq_int v w = put_vlq_int (zigzag v) w

-- What `get_vlq_int` does with one byte; `more` are the rounds that follow.
unfoldable pub take_group :
    (ℕ → ℕ → BitReader → Outcome (Option ℕ × BitReader))
    → ℕ
    → ℕ
    → ℕ
    → BitReader
    → Outcome (Option ℕ × BitReader)
take_group more shift v byte r = do
  let v' = bit_or v (bit_and byte 0x7F * 2 ^ (shift % 64) % 2 ^ 64)
  assert (leb (shift + 7) (max_vlq_byte_len * 7))
  if bit_and byte 0x80 == 0 then ok (some v', r) else more (shift + 7) v' r

-- The rounds of `get_vlq_int`. An eleventh byte fails the assertion.
unfoldable pub get_vlq_loop : ℕ → ℕ → ℕ → BitReader → Outcome (Option ℕ × BitReader)
get_vlq_loop zero shift v r = running
get_vlq_loop (suc fuel) shift v r = do
  (next, r') ← get_aligned 1 r
  elim next [ none ↦ ok (none, r') | some byte ↦ take_group (get_vlq_loop fuel) shift v byte r' ]

unfoldable pub get_vlq_int : BitReader → Outcome (Option ℕ × BitReader)
unfolding get_vlq_loop
get_vlq_int r = get_vlq_loop 11 0 0 r

-- `(u >> 1) as i64 ^ -((u & 1) as i64)`
abbrev pub unzigzag : ℕ → ℕ
unzigzag u = bit_xor (u / 2) ((2 ^ 64 - bit_and u 1) % 2 ^ 64)

unfoldable pub get_zigzag_vlq_int : BitReader → Outcome (Option ℕ × BitReader)
get_zigzag_vlq_int r = do
  (v, r') ← get_vlq_int r
  elim v [ none ↦ ok (none, r') | some u ↦ ok (some (unzigzag u), r') ]
