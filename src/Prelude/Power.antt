-- ===== src/Prelude/Power.antt =====
-- Quotients and remainders by powers of two at variable widths.
use Prim.Native.Nat.{ℕ, zero, suc, ◌+◌, ◌-◌, ◌*◌, ◌/◌, ◌%◌, ◌^◌, ◌≤◌, ◌<◌}
use mathlib.Core.Path.{◌≡◌, sym, ap, ap₂, ◌∙◌}
use native.Mathlib.Omega.{arith}
use native.Mathlib.Nat.{
  pow-suc, one-le-pow, mod-eq_of_lt, mul-add-mod_self_left, div-add-mod, mul-add-div, div-eq_of_lt,
  mod-lt, add_comm, div-div-eq-div-mul, div-lt_iff_lt-mul, add-mul-mod_self_left,
}

pub two_pow_pos : (k : ℕ) → 0 < 2 ^ k
two_pow_pos k = one-le-pow k 2 (omega arith)

pub two_pow-add : (a b : ℕ) → 2 ^ (a + b) ≡ 2 ^ a * 2 ^ b
two_pow-add a zero = omega (arith, ap (λ (t : ℕ). 2 ^ t) (let e : a + 0 ≡ a = omega arith in e))
two_pow-add a (suc b) = omega (
  arith,
  ap (λ (t : ℕ). 2 ^ t) (let e : a + suc b ≡ suc (a + b) = omega arith in e),
  pow-suc 2 (a + b),
  pow-suc 2 b,
  two_pow-add a b,
  ap (λ (t : ℕ). 2 ^ a * t) (pow-suc 2 b),
)

-- `2 ^ m` splits at `k`.
pub two_pow_split : (k m : ℕ) → k ≤ m → 2 ^ m ≡ 2 ^ k * 2 ^ (m - k)
two_pow_split k m h =
    ap (λ (t : ℕ). 2 ^ t) (let e : m ≡ k + (m - k) = omega arith in e) ∙ two_pow-add k (m - k)

pub two_pow_mono : (a b : ℕ) → a ≤ b → 2 ^ a ≤ 2 ^ b
two_pow_mono a b h = grind (arith, two_pow_split a b h, two_pow_pos (b - a))

-- The low digit and the rest, in base `c`.
pub add_mul_div : (c a x : ℕ) → a < c → (a + c * x) / c ≡ x
add_mul_div c a x h =
    ap (λ (t : ℕ). t / c) (add_comm a (c * x))
    ∙ mul-add-div {m = c} (omega arith) x a
    ∙ omega (arith, div-eq_of_lt h)

pub add_mul_mod : (c a x : ℕ) → a < c → (a + c * x) % c ≡ a
add_mul_mod c a x h =
    ap (λ (t : ℕ). t % c) (add_comm a (c * x)) ∙ mul-add-mod_self_left c x a ∙ mod-eq_of_lt h

-- A remainder by a product, digit by digit.
pub add_mul_mod_mul : (c m a x : ℕ) → a < c → 0 < m → (a + c * x) % (c * m) ≡ a + c * (x % m)
add_mul_mod_mul c m a x h p =
    ap (λ (t : ℕ). t % (c * m)) regroup
    ∙ mul-add-mod_self_left (c * m) (x / m) (a + c * (x % m))
    ∙ mod-eq_of_lt bound
  where
    regroup : a + c * x ≡ c * m * (x / m) + (a + c * (x % m))
    regroup = omega (arith, ap (λ (t : ℕ). c * t) (div-add-mod x m))

    bound : a + c * (x % m) < c * m
    bound = grind (arith, mod-lt x p)

pub add_mul-lt : (c m a x : ℕ) → a < c → x < m → a + c * x < c * m
add_mul-lt c m a x h k = grind arith

-- A shift to the left inside a word of `b + c` bits.
pub shift_mod : (v b c : ℕ) → v * 2 ^ b % 2 ^ (b + c) ≡ v % 2 ^ c * 2 ^ b
shift_mod v b c =
    ap₂ ◌%◌ (let e : v * 2 ^ b ≡ 0 + 2 ^ b * v = omega arith in e) (two_pow-add b c)
    ∙ add_mul_mod_mul (2 ^ b) (2 ^ c) 0 v (two_pow_pos b) (two_pow_pos c)
    ∙ omega arith

-- A remainder by `2 ^ (b + c)` in its two parts.
pub mod_parts : (x b c : ℕ) → x % 2 ^ (b + c) ≡ x % 2 ^ b + x / 2 ^ b % 2 ^ c * 2 ^ b
mod_parts x b c =
    ap₂ ◌%◌
      (let e : x ≡ x % 2 ^ b + 2 ^ b * (x / 2 ^ b) = omega (arith, div-add-mod x (2 ^ b)) in e)
      (two_pow-add b c)
    ∙ add_mul_mod_mul (2 ^ b) (2 ^ c) (x % 2 ^ b) (x / 2 ^ b) (mod-lt x (two_pow_pos b))
        (two_pow_pos c)
    ∙ omega arith

-- A shift to the right of a remainder.
pub mod_shift : (v b c : ℕ) → v % 2 ^ (b + c) / 2 ^ b ≡ v / 2 ^ b % 2 ^ c
mod_shift v b c =
    ap (λ (t : ℕ). t / 2 ^ b)
      (mod_parts v b c
        ∙ (let e : v % 2 ^ b + v / 2 ^ b % 2 ^ c * 2 ^ b ≡ v % 2 ^ b + 2 ^ b * (v / 2 ^ b % 2 ^ c) =
              omega arith in
            e))
    ∙ add_mul_div (2 ^ b) (v % 2 ^ b) (v / 2 ^ b % 2 ^ c) (mod-lt v (two_pow_pos b))

pub shift_shift : (v b c : ℕ) → v / 2 ^ b / 2 ^ c ≡ v / 2 ^ (b + c)
shift_shift v b c =
    div-div-eq-div-mul v (2 ^ b) (2 ^ c) ∙ ap (λ (t : ℕ). v / t) (sym (two_pow-add b c))

pub shift-lt : (v b c : ℕ) → v < 2 ^ (b + c) → v / 2 ^ b < 2 ^ c
shift-lt v b c h =
    (div-lt_iff_lt-mul {k = 2 ^ b} {x = v} {y = 2 ^ c} (two_pow_pos b)).1
      (omega (arith, two_pow-add b c))

pub mod_mod_pow : (x a b : ℕ) → a ≤ b → x % 2 ^ b % 2 ^ a ≡ x % 2 ^ a
mod_mod_pow x a b h =
    sym (add-mul-mod_self_left (x % 2 ^ b) (2 ^ a) (2 ^ (b - a) * (x / 2 ^ b)))
    ∙ ap (λ (t : ℕ). t % 2 ^ a) whole
  where
    whole : x % 2 ^ b + 2 ^ a * (2 ^ (b - a) * (x / 2 ^ b)) ≡ x
    whole =
        omega (arith, ap (λ (t : ℕ). t * (x / 2 ^ b)) (two_pow_split a b h), div-add-mod x (2 ^ b))
