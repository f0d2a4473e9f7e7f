-- ===== src/Prelude/Digits.antt =====
-- `&` and `|` at variable arguments, from the digit recursion that the native operations stand for.
use Prim.Native.Nat.{
  ℕ, zero, suc, ◌+◌, ◌-◌, ◌*◌, ◌/◌, ◌%◌, ◌^◌, ◌≤◌, ◌<◌, min, max, bit_and, bit_or, bit_xor, digits,
  differ, bit_xor-bitwise, bit_and-bitwise, bit_or-bitwise,
}
use mathlib.Core.Path.{◌≡◌, refl, ap, sym, ap₂, ◌∙◌}
use native.Mathlib.Omega.{arith}
use native.Mathlib.Nat.{pow-suc, pow-succ', div-div-eq-div-mul}
use parquet_rs.Prelude.Power.{two_pow_pos, add_mul_mod_mul}

-- A count that covers the first operand covers all its digits: a larger one changes nothing.
module _ (last : ℕ → ℕ) (join : ℕ → ℕ → ℕ) where
  digits_enough :
      (k l : ℕ) (x y : ℕ) → x ≤ k → x ≤ l → digits last join k x y ≡ digits last join l x y
  digits_enough (suc k) (suc l) (suc x) y kx lx =
      let half : suc x / 2 ≤ min k l = omega arith in
      ap (λ (t : ℕ). t * 2 + join (suc x % 2) (y % 2))
        (digits_enough k l (suc x / 2) (y / 2) (omega (arith, half)) (omega (arith, half)))
  digits_enough zero l (suc x) y kx lx = absurd (omega (arith, kx))
  digits_enough (suc k) zero (suc x) y kx lx = absurd (omega (arith, lx))
  digits_enough (suc k) (suc l) zero y kx lx = refl
  digits_enough (suc k) zero zero y kx lx = refl
  digits_enough zero (suc l) zero y kx lx = refl
  digits_enough zero zero zero y kx lx = refl

pub bit_and-zero_left : (b : ℕ) → bit_and 0 b ≡ 0
bit_and-zero_left b = bit_and-bitwise 0 b

pub bit_or-zero_left : (b : ℕ) → bit_or 0 b ≡ b
bit_or-zero_left b = bit_or-bitwise 0 b

-- One binary digit of a conjunction and of a disjunction.
pub bit_and_digit : (a b : ℕ) → bit_and a b ≡ bit_and (a / 2) (b / 2) * 2 + min (a % 2) (b % 2)
bit_and_digit zero b = omega (arith, bit_and-zero_left b, bit_and-zero_left (b / 2))
bit_and_digit (suc a) b = omega (
  arith,
  digits_enough (λ y. 0) min a (suc a / 2) (suc a / 2) (b / 2) (omega arith) (omega arith),
  bit_and-bitwise (suc a / 2) (b / 2),
  bit_and-bitwise (suc a) b,
)

pub bit_or_digit : (a b : ℕ) → bit_or a b ≡ bit_or (a / 2) (b / 2) * 2 + max (a % 2) (b % 2)
bit_or_digit zero b = omega (arith, bit_or-zero_left b, bit_or-zero_left (b / 2))
bit_or_digit (suc a) b = omega (
  arith,
  bit_or-bitwise (suc a) b,
  bit_or-bitwise (suc a / 2) (b / 2),
  digits_enough (λ y. y) max a (suc a / 2) (suc a / 2) (b / 2) (omega arith) (omega arith),
)

bit_and-zero_below : (n a : ℕ) → a ≤ n → bit_and a 0 ≡ 0
bit_and-zero_below n zero h = refl
bit_and-zero_below zero (suc a) h = absurd (omega arith)
bit_and-zero_below (suc n) (suc a) h =
    omega (arith, bit_and_digit (suc a) 0, bit_and-zero_below n (suc a / 2) (omega arith))

pub bit_and-zero_right : (a : ℕ) → bit_and a 0 ≡ 0
bit_and-zero_right a = bit_and-zero_below a a (omega arith)

mul_two_pow-suc : (b k : ℕ) → b * 2 ^ suc k ≡ b * 2 ^ k * 2
mul_two_pow-suc b k = omega (arith, ap (λ (t : ℕ). b * t) (pow-suc 2 k))

-- Fields that do not overlap are added.
pub bit_or_disjoint : (k a b : ℕ) → a < 2 ^ k → bit_or a (b * 2 ^ k) ≡ a + b * 2 ^ k
bit_or_disjoint zero a b h = ground (arith, bit_or-zero_left (b * 1))
bit_or_disjoint (suc k) a b h = ground (
  arith,
  bit_or_digit a (b * 2 ^ suc k),
  mul_two_pow-suc b k,
  pow-suc 2 k,
  bit_or_disjoint k (a / 2) b (omega (arith, pow-suc 2 k)),
)

mod_two_pow-suc : (k a : ℕ) → a % 2 ^ suc k ≡ a % 2 + 2 * (a / 2 % 2 ^ k)
mod_two_pow-suc k a =
    ap₂ ◌%◌ (let e : a ≡ a % 2 + 2 * (a / 2) = omega arith in e) (pow-succ' 2 k)
    ∙ add_mul_mod_mul 2 (2 ^ k) (a % 2) (a / 2) (omega arith) (two_pow_pos k)

-- A mask of `k` ones keeps the `k` low digits.
pub bit_and_mask : (k a : ℕ) → bit_and a (2 ^ k - 1) ≡ a % 2 ^ k
bit_and_mask zero a = omega (arith, bit_and-zero_right a)
bit_and_mask (suc k) a = omega (
  arith,
  bit_and_digit a (2 ^ suc k - 1),
  mod_two_pow-suc k a,
  pow-suc 2 k,
  two_pow_pos k,
  bit_and_mask k (a / 2),
  ap (λ (t : ℕ). bit_and (a / 2) t) halved,
)
  where
    halved : (2 ^ suc k - 1) / 2 ≡ 2 ^ k - 1
    halved = omega (arith, pow-suc 2 k, two_pow_pos k)

halve : (a k : ℕ) → a / 2 ^ suc k ≡ a / 2 / 2 ^ k
halve a k = ap (λ (t : ℕ). a / t) (pow-succ' 2 k) ∙ sym (div-div-eq-div-mul a 2 (2 ^ k))

-- A mask that starts at digit `k`.
pub bit_and_shifted : (k a b : ℕ) → bit_and a (b * 2 ^ k) ≡ bit_and (a / 2 ^ k) b * 2 ^ k
bit_and_shifted zero a b = omega (
  arith,
  ap₂ bit_and (let e : a ≡ a / 1 = omega arith in e) (let e : b * 1 ≡ b = omega arith in e),
)
bit_and_shifted (suc k) a b = omega (
  arith,
  bit_and_digit a (b * 2 ^ suc k),
  mul_two_pow-suc b k,
  mul_two_pow-suc (bit_and (a / 2 ^ suc k) b) k,
  bit_and_shifted k (a / 2) b,
  ap (λ (t : ℕ). bit_and (a / 2) t) halved,
  ap (λ (t : ℕ). bit_and t b * 2 ^ k) quotient,
)
  where
    halved : b * 2 ^ suc k / 2 ≡ b * 2 ^ k
    halved = omega (arith, mul_two_pow-suc b k)

    quotient : a / 2 / 2 ^ k ≡ a / 2 ^ suc k
    quotient = sym (halve a k)

-- Byte masks of the variable-length integers.
pub bit_and-0x7f : (a : ℕ) → bit_and a 0x7f ≡ a % 128
bit_and-0x7f a = bit_and_mask 7 a

pub bit_and-one : (a : ℕ) → bit_and a 1 ≡ a % 2
bit_and-one a = bit_and_mask 1 a

pub bit_and-0x80 : (a : ℕ) → a < 256 → bit_and a 0x80 ≡ a / 128 * 128
bit_and-0x80 a h = omega (arith, bit_and_shifted 7 a 1, bit_and-one (a / 128))

-- The mask `0xFFFF_FFFF_FFFF_FF80`: what is left above the seven low digits.
pub bit_and_above_seven : (a : ℕ) → a < 2 ^ 64 → bit_and a 0xFFFF_FFFF_FFFF_FF80 ≡ a / 128 * 128
bit_and_above_seven a h = omega (arith, bit_and_shifted 7 a (2 ^ 57 - 1), bit_and_mask 57 (a / 128))

pub bit_or-0x80 : (a : ℕ) → a < 128 → bit_or a 0x80 ≡ a + 128
bit_or-0x80 a h = bit_or_disjoint 7 a 1 h

-- Digit `j` of a disjunction and of a conjunction.
pub bit_or-bit : (j a b : ℕ) → bit_or a b / 2 ^ j % 2 ≡ max (a / 2 ^ j % 2) (b / 2 ^ j % 2)
bit_or-bit zero a b = omega (arith, bit_or_digit a b)
bit_or-bit (suc j) a b = omega (
  arith,
  halve (bit_or a b) j,
  halve a j,
  halve b j,
  bit_or-bit j (a / 2) (b / 2),
  ap (λ (t : ℕ). t / 2 ^ j) half,
)
  where
    half : bit_or a b / 2 ≡ bit_or (a / 2) (b / 2)
    half = omega (arith, bit_or_digit a b)

pub bit_and-bit : (j a b : ℕ) → bit_and a b / 2 ^ j % 2 ≡ min (a / 2 ^ j % 2) (b / 2 ^ j % 2)
bit_and-bit zero a b = omega (arith, bit_and_digit a b)
bit_and-bit (suc j) a b = omega (
  arith,
  halve (bit_and a b) j,
  halve a j,
  halve b j,
  bit_and-bit j (a / 2) (b / 2),
  ap (λ (t : ℕ). t / 2 ^ j) half,
)
  where
    half : bit_and a b / 2 ≡ bit_and (a / 2) (b / 2)
    half = omega (arith, bit_and_digit a b)

-- Exclusive or: one digit, and the two operands of zigzag.
differ_digits : (x y : ℕ) → x < 2 → y < 2 → differ x y ≡ (x + y) % 2
differ_digits zero zero p q = refl
differ_digits zero (suc zero) p q = refl
differ_digits (suc zero) zero p q = refl
differ_digits (suc zero) (suc zero) p q = refl
differ_digits zero (suc (suc y)) p q = absurd (omega arith)
differ_digits (suc zero) (suc (suc y)) p q = absurd (omega arith)
differ_digits (suc (suc x)) y p q = absurd (omega arith)

pub bit_xor-zero_left : (b : ℕ) → bit_xor 0 b ≡ b
bit_xor-zero_left b = bit_xor-bitwise 0 b

pub bit_xor_digit : (a b : ℕ) → bit_xor a b ≡ bit_xor (a / 2) (b / 2) * 2 + (a % 2 + b % 2) % 2
bit_xor_digit zero b = omega (arith, bit_xor-zero_left b, bit_xor-zero_left (b / 2))
bit_xor_digit (suc a) b = omega (
  arith,
  bit_xor-bitwise (suc a) b,
  bit_xor-bitwise (suc a / 2) (b / 2),
  digits_enough (λ y. y) differ a (suc a / 2) (suc a / 2) (b / 2) (omega arith) (omega arith),
  differ_digits (suc a % 2) (b % 2) (omega arith) (omega arith),
)

pub bit_xor-zero_right : (k a : ℕ) → a < 2 ^ k → bit_xor a 0 ≡ a
bit_xor-zero_right zero a h = ground (arith, bit_xor-zero_left 0)
bit_xor-zero_right (suc k) a h =
    omega (arith, bit_xor_digit a 0, bit_xor-zero_right k (a / 2) (omega (arith, pow-suc 2 k)))

-- All ones on the right: the complement.
pub bit_xor-ones : (k a : ℕ) → a < 2 ^ k → bit_xor a (2 ^ k - 1) ≡ 2 ^ k - 1 - a
bit_xor-ones zero a h = ground (arith, bit_xor-zero_left 0)
bit_xor-ones (suc k) a h = omega (
  arith,
  bit_xor_digit a (2 ^ suc k - 1),
  ap (bit_xor (a / 2))
      (let e : (2 ^ suc k - 1) / 2 ≡ 2 ^ k - 1 = omega (arith, pow-suc 2 k, two_pow_pos k) in e),
  bit_xor-ones k (a / 2) (omega (arith, pow-suc 2 k)),
  pow-suc 2 k,
  two_pow_pos k,
)
