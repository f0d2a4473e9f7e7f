-- ===== src/BitUtil/Scalar/ArrayBit.antt =====
-- src/util/bit_util.rs: setting and clearing one bit of an array of bytes.
use parquet_rs.BitUtil.Scalar.{set_array_bit, unset_array_bit}
use parquet_rs.Prelude.{
  ℕ, ◌-◌, ◌/◌, ◌%◌, ◌^◌, ◌<◌, List, ok, bit_and, bit_or, ◌==◌, ==_iff, if◌then◌else◌, true, ◌≢◌,
  ◌≡◌, refl, arith, get_or, get_elem?-eq-get_or, get_or-set_self, get_or-set_ne, length, length-set,
  set, bit_or-bit, bit_and-bit, holds_below, holds_below_at,
}
use native.Mathlib.Decide.{ℕ_discrete}

-- Bit `j` of an array of bytes.
abbrev pub array_bit : List ℕ → ℕ → ℕ
array_bit bits j = get_or bits (j / 8) 0 / 2 ^ (j % 8) % 2

-- The masks of the two functions, bit by bit.
one_bit_table :
    holds_below 8 (λ k. holds_below 8 (λ m. 2 ^ k / 2 ^ m % 2 == (if m == k then 1 else 0))) ≡ true
unfolding holds_below
one_bit_table = refl

one_bit : (k m : ℕ) → k < 8 → m < 8 → 2 ^ k / 2 ^ m % 2 ≡ (if m == k then 1 else 0)
one_bit k m hk hm = (==_iff _ _).0 (holds_below_at 8 _ m (holds_below_at 8 _ k one_bit_table hk) hm)

hole_bit_table :
    holds_below 8 (λ k. holds_below 8 (λ m. (255 - 2 ^ k) / 2 ^ m % 2 == (if m == k then 0 else 1)))
    ≡ true
unfolding holds_below
hole_bit_table = refl

hole_bit : (k m : ℕ) → k < 8 → m < 8 → (255 - 2 ^ k) / 2 ^ m % 2 ≡ (if m == k then 0 else 1)
hole_bit k m hk hm =
    (==_iff _ _).0 (holds_below_at 8 _ m (holds_below_at 8 _ k hole_bit_table hk) hm)

-- One byte of an array written anew: the bits of the other bytes stay.
array_bit-set :
    (bits : List ℕ) (i j new : ℕ)
    → i / 8 < length bits
    → array_bit (set bits (i / 8) new) j
      ≡ (if j / 8 == i / 8 then new / 2 ^ (j % 8) % 2 else array_bit bits j)
array_bit-set bits i j new h = elim (ℕ_discrete (i / 8) (j / 8)) [
  | yes same ↦ rw (← same, get_or-set_self bits (i / 8) new 0 h) (ground arith)
  | no other ↦ rw (get_or-set_ne bits (i / 8) (j / 8) new 0 other) (ground arith)
]

byte_index : (i j : ℕ) → i / 8 ≡ j / 8 → i ≢ j → i % 8 ≢ j % 8
byte_index i j e n = omega arith

-- When the bit lies in the array, `set_array_bit` does not panic, sets the bit, changes no other,
-- and keeps the length.
pub set_array_bit_lem :
    (bits : List ℕ) (i : ℕ)
    → i / 8 < length bits
    → (bits' : List ℕ) × (set_array_bit bits i ≡ ok bits')
      × (length bits' ≡ length bits)
      × ((j : ℕ) → array_bit bits' j ≡ (if j == i then 1 else array_bit bits j))
unfolding set_array_bit
set_array_bit_lem bits i h =
    let byte = get_or bits (i / 8) 0 in
    let new = bit_or byte (2 ^ (i % 8)) in
    (
      set bits (i / 8) new,
      rw (get_elem?-eq-get_or bits (i / 8) 0 h),
      length-set bits (i / 8) new,
      λ j. ground (
        arith,
        array_bit-set bits i j new h,
        bit_or-bit (j % 8) byte (2 ^ (i % 8)),
        one_bit (i % 8) (j % 8),
        byte_index i j,
      ),
    )

-- When the bit lies in the array, `unset_array_bit` does not panic, clears the bit, changes no
-- other, and keeps the length.
pub unset_array_bit_lem :
    (bits : List ℕ) (i : ℕ)
    → i / 8 < length bits
    → (bits' : List ℕ) × (unset_array_bit bits i ≡ ok bits')
      × (length bits' ≡ length bits)
      × ((j : ℕ) → array_bit bits' j ≡ (if j == i then 0 else array_bit bits j))
unfolding unset_array_bit
unset_array_bit_lem bits i h =
    let byte = get_or bits (i / 8) 0 in
    let new = bit_and byte (255 - 2 ^ (i % 8)) in
    (
      set bits (i / 8) new,
      rw (get_elem?-eq-get_or bits (i / 8) 0 h),
      length-set bits (i / 8) new,
      λ j. ground (
        arith,
        array_bit-set bits i j new h,
        bit_and-bit (j % 8) byte (255 - 2 ^ (i % 8)),
        hole_bit (i % 8) (j % 8),
        byte_index i j,
      ),
    )
