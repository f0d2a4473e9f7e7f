-- ===== src/BitPacking/Stream.antt =====
-- The specification of bit packing: the words spell one number, and value `i` is its bits from
-- `n * i` on. The specification knows nothing of word boundaries.
use native.Mathlib.Nat.{
  div-div-eq-div-mul, add-mul-mod_self_left, add-mul-div_left, mul_assoc, div-lt_iff_lt-mul,
  mod-eq_of_lt, mod-lt,
}
use parquet_rs.Prelude.{
  ℕ, zero, suc, ◌+◌, ◌-◌, ◌*◌, ◌/◌, ◌%◌, ◌^◌, ◌≤◌, ◌<◌, bit_or, ◌≡◌, sym, ap, ap₂, ◌∙◌, arith,
  two_pow_pos, two_pow-add, two_pow_split, two_pow_mono, add_mul_div, add_mul_mod_mul,
  bit_or_disjoint,
}
use parquet_rs.BitPacking.Word.{Buf, ◌>>>◌, ◌<<<◌}

-- The number that `k` words spell, the first word lowest.
abbrev pub stream : ℕ → Buf → ℕ
stream zero w = 0
stream (suc k) w = w 0 + 2 ^ 32 * stream k (λ j. w (suc j))

-- `n` bits of a number, from bit `p` on.
abbrev pub field : ℕ → ℕ → ℕ → ℕ
field x p n = x / 2 ^ p % 2 ^ n

abbrev pub IsU32Buf : Buf → Type 0
IsU32Buf w = (j : ℕ) → w j < 2 ^ 32

abbrev pub advance : ℕ → Buf → Buf
advance zero w = w
advance (suc q) w = advance q (λ j. w (suc j))

pub advance_lem : (q j : ℕ) (w : Buf) → advance q w j ≡ w (q + j)
advance_lem zero j w = ap w (omega arith)
advance_lem (suc q) j w = advance_lem q j (λ i. w (suc i)) ∙ ap w (omega arith)

-- Dividing by whole words drops them.
pub stream-drop :
    (q k n : ℕ) (w : Buf)
    → IsU32Buf w
    → n ≡ q + k
    → stream n w / 2 ^ (32 * q) ≡ stream k (advance q w)
stream-drop zero k n w h e =
    let same : n ≡ k = omega arith in omega (arith, ap (λ (t : ℕ). stream t w) same)
stream-drop (suc q) k zero w h e = absurd (omega arith)
stream-drop (suc q) k (suc n) w h e =
    ap (λ (t : ℕ). stream (suc n) w / 2 ^ t) (let d : 32 * suc q ≡ 32 + 32 * q = omega arith in d)
    ∙ ap (λ (t : ℕ). stream (suc n) w / t) (two_pow-add 32 (32 * q))
    ∙ sym (div-div-eq-div-mul (stream (suc n) w) (2 ^ 32) (2 ^ (32 * q)))
    ∙ ap (λ (t : ℕ). t / 2 ^ (32 * q)) (add_mul_div (2 ^ 32) (w 0) _ (h 0))
    ∙ stream-drop q k n (λ j. w (suc j)) (λ j. h (suc j)) (omega arith)

-- What is left above bit `s` of a word when more words follow.
above : (a r s : ℕ) → s ≤ 32 → (a + 2 ^ 32 * r) / 2 ^ s ≡ a / 2 ^ s + 2 ^ (32 - s) * r
above a r s h =
    ap (λ (t : ℕ). (a + t) / 2 ^ s)
      (ap (λ (t : ℕ). t * r) (two_pow_split s 32 h) ∙ mul_assoc (2 ^ s) (2 ^ (32 - s)) r)
    ∙ add-mul-div_left a (2 ^ (32 - s) * r) (two_pow_pos s)

low_part : (a r n m : ℕ) → n ≤ m → (a + 2 ^ m * r) % 2 ^ n ≡ a % 2 ^ n
low_part a r n m h =
    ap (λ (t : ℕ). (a + t) % 2 ^ n)
      (ap (λ (t : ℕ). t * r) (two_pow_split n m h) ∙ mul_assoc (2 ^ n) (2 ^ (m - n)) r)
    ∙ add-mul-mod_self_left a (2 ^ n) (2 ^ (m - n) * r)

-- A field that ends inside the lowest word.
pub field_inside : (a r s n : ℕ) → s + n ≤ 32 → field (a + 2 ^ 32 * r) s n ≡ a / 2 ^ s % 2 ^ n
field_inside a r s n h =
    ap (λ (t : ℕ). t % 2 ^ n) (above a r s (omega arith))
    ∙ low_part (a / 2 ^ s) r n (32 - s) (omega arith)

pub shifted-lt : (a s m : ℕ) → s ≤ m → a < 2 ^ m → a / 2 ^ s < 2 ^ (m - s)
shifted-lt a s m h k =
    (div-lt_iff_lt-mul {k = 2 ^ s} {x = a} {y = 2 ^ (m - s)} (two_pow_pos s)).1
      (omega (arith, two_pow_split s m h))

pub top_fits : (a s c : ℕ) → s + c ≡ 32 → a < 2 ^ 32 → a / 2 ^ s < 2 ^ c
top_fits a s c h k = omega (
  arith,
  shifted-lt a s 32 (omega arith) k,
  ap (λ (t : ℕ). 2 ^ t) (let e : 32 - s ≡ c = omega arith in e),
)

-- A field that ends with the lowest word.
pub field_top : (a r s n : ℕ) → s + n ≡ 32 → a < 2 ^ 32 → field (a + 2 ^ 32 * r) s n ≡ a / 2 ^ s
field_top a r s n h k = field_inside a r s n (omega arith) ∙ mod-eq_of_lt (top_fits a s n h k)

-- A field that goes on into the next word, as a sum of its two parts.
field_across :
    (a b r s c m : ℕ)
    → s + c ≡ 32
    → m ≤ 32
    → a < 2 ^ 32
    → field (a + 2 ^ 32 * (b + 2 ^ 32 * r)) s (c + m) ≡ a / 2 ^ s + 2 ^ c * (b % 2 ^ m)
field_across a b r s c m hc hm ha =
    ap₂ ◌%◌
      (above a (b + 2 ^ 32 * r) s (omega arith)
        ∙ ap (λ (t : ℕ). a / 2 ^ s + 2 ^ t * (b + 2 ^ 32 * r))
            (let e : 32 - s ≡ c = omega arith in e))
      (two_pow-add c m)
    ∙ add_mul_mod_mul (2 ^ c) (2 ^ m) (a / 2 ^ s) (b + 2 ^ 32 * r) fits (two_pow_pos m)
    ∙ ap (λ (t : ℕ). a / 2 ^ s + 2 ^ c * t) (low_part b r m 32 hm)
  where
    fits : a / 2 ^ s < 2 ^ c
    fits = top_fits a s c hc ha

-- The same field as the code puts it together, with `|` and a shift that loses nothing.
pub field_straddle :
    (a b r s c m : ℕ)
    → s + c ≡ 32
    → c + m ≤ 32
    → a < 2 ^ 32
    → field (a + 2 ^ 32 * (b + 2 ^ 32 * r)) s (c + m) ≡ bit_or (a >>> s) (b % 2 ^ m <<< c)
field_straddle a b r s c m hc hm ha =
    field_across a b r s c m hc (omega arith) ha
    ∙ omega (arith, joined, ap (λ (t : ℕ). bit_or (a / 2 ^ s) t) unwrapped)
  where
    fits : a / 2 ^ s < 2 ^ c
    fits = top_fits a s c hc ha

    small : b % 2 ^ m * 2 ^ c < 2 ^ 32
    small = grind (
      arith,
      mod-lt b (two_pow_pos m),
      two_pow-add c m,
      two_pow_mono (c + m) 32 hm,
      two_pow_pos c,
    )

    unwrapped : b % 2 ^ m <<< c ≡ b % 2 ^ m * 2 ^ c
    unwrapped = mod-eq_of_lt small

    joined : bit_or (a / 2 ^ s) (b % 2 ^ m * 2 ^ c) ≡ a / 2 ^ s + b % 2 ^ m * 2 ^ c
    joined = bit_or_disjoint c (a / 2 ^ s) (b % 2 ^ m) fits
