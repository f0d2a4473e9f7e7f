-- ===== src/Prelude/Bytes.antt =====
-- A sequence of bytes as the little-endian number that it spells, and the two directions of
-- `memcpy` between a native integer and a buffer.
use mathlib.Core.List.{List, [], ◌∷◌, ◌++◌}
use mathlib.Core.Path.{◌≡◌, refl, sym, ap, ap₂, ◌∙◌}
use Prim.Native.Nat.{ℕ, zero, suc, ◌+◌, ◌*◌, ◌/◌, ◌%◌, ◌^◌, ◌<◌}
use native.Mathlib.Omega.{arith}
use native.Mathlib.Nat.{one-le-pow, pow-succ', div-div-eq-div-mul, zero-div, zero-mod}
use parquet_rs.Prelude.Lists.{length, take, drop, All}
use parquet_rs.Prelude.Power.{add_mul_div, add_mul_mod_mul, two_pow-add}

abbrev pub IsByte : ℕ → Type 0
IsByte b = b < 256

-- The number that a little-endian sequence of bytes spells.
unfoldable pub from_le : List ℕ → ℕ
from_le [] = 0
from_le (b ∷ bs) = b + 256 * from_le bs

-- The `n` low bytes of a number, lowest first.
unfoldable pub to_le : ℕ → ℕ → List ℕ
to_le zero v = []
to_le (suc n) v = v % 256 ∷ to_le n (v / 256)

pub length-to_le : (n v : ℕ) → length (to_le n v) ≡ n
unfolding to_le
length-to_le zero v = refl
length-to_le (suc n) v = omega (arith, length-to_le n (v / 256))

pub to_le-IsByte : (n v : ℕ) → All IsByte (to_le n v)
unfolding to_le
to_le-IsByte zero v = tt
to_le-IsByte (suc n) v = (omega arith, to_le-IsByte n (v / 256))

pub byte_pow-pos : (n : ℕ) → 0 < 256 ^ n
byte_pow-pos n = one-le-pow n 256 (omega arith)

pub from_le-to_le : (n v : ℕ) → from_le (to_le n v) ≡ v % 256 ^ n
unfolding from_le to_le
from_le-to_le zero v = omega arith
from_le-to_le (suc n) v =
    ap (λ (t : ℕ). v % 256 + 256 * t) (from_le-to_le n (v / 256))
    ∙ sym (add_mul_mod_mul 256 (256 ^ n) (v % 256) (v / 256) (omega arith) (byte_pow-pos n))
    ∙ ap₂ ◌%◌ (let e : v % 256 + 256 * (v / 256) ≡ v = omega arith in e) (sym (pow-succ' 256 n))

pub from_le-lt : (bs : List ℕ) → All IsByte bs → from_le bs < 256 ^ length bs
unfolding from_le
from_le-lt [] h = omega arith
from_le-lt (b ∷ bs) h = omega (arith, h.0, from_le-lt bs h.1, pow-succ' 256 (length bs))

pub from_le-append :
    (xs ys : List ℕ) → from_le (xs ++ ys) ≡ from_le xs + 256 ^ length xs * from_le ys
unfolding from_le
from_le-append [] ys = omega arith
from_le-append (x ∷ xs) ys =
    omega (arith, from_le-append xs ys, ap (λ (t : ℕ). t * from_le ys) (pow-succ' 256 (length xs)))

-- Dropping bytes divides, and taking bytes keeps the remainder.
pub from_le-drop :
    (n : ℕ) (bs : List ℕ) → All IsByte bs → from_le (drop n bs) ≡ from_le bs / 256 ^ n
unfolding from_le
from_le-drop zero bs h = omega arith
from_le-drop (suc n) [] h = sym (zero-div (256 ^ suc n))
from_le-drop (suc n) (b ∷ bs) h =
    from_le-drop n bs h.1
    ∙ ap (λ (t : ℕ). t / 256 ^ n) (sym (add_mul_div 256 b (from_le bs) h.0))
    ∙ div-div-eq-div-mul (b + 256 * from_le bs) 256 (256 ^ n)
    ∙ ap (λ (t : ℕ). (b + 256 * from_le bs) / t) (sym (pow-succ' 256 n))

pub from_le-take :
    (n : ℕ) (bs : List ℕ) → All IsByte bs → from_le (take n bs) ≡ from_le bs % 256 ^ n
unfolding from_le
from_le-take zero bs h = omega arith
from_le-take (suc n) [] h = sym (zero-mod (256 ^ suc n))
from_le-take (suc n) (b ∷ bs) h =
    ap (λ (t : ℕ). b + 256 * t) (from_le-take n bs h.1)
    ∙ sym (add_mul_mod_mul 256 (256 ^ n) b (from_le bs) h.0 (byte_pow-pos n))
    ∙ ap (λ (t : ℕ). (b + 256 * from_le bs) % t) (sym (pow-succ' 256 n))

pub byte_pow-eq-two_pow : (n : ℕ) → 256 ^ n ≡ 2 ^ (8 * n)
byte_pow-eq-two_pow zero = refl
byte_pow-eq-two_pow (suc n) = omega (
  arith,
  pow-succ' 256 n,
  byte_pow-eq-two_pow n,
  ap (λ (t : ℕ). 2 ^ t) (let e : 8 * suc n ≡ 8 + 8 * n = omega arith in e),
  two_pow-add 8 (8 * n),
)

-- A number has one spelling of each length.
pub from_le-injective :
    (xs ys : List ℕ)
    → All IsByte xs
    → All IsByte ys
    → length xs ≡ length ys
    → from_le xs ≡ from_le ys
    → xs ≡ ys
unfolding from_le
from_le-injective [] [] h k same e = refl
from_le-injective [] (y ∷ ys) h k same e = absurd (omega (arith, same))
from_le-injective (x ∷ xs) [] h k same e = absurd (omega (arith, same))
from_le-injective (x ∷ xs) (y ∷ ys) h k same e =
    ap₂ ◌∷◌ (omega (arith, h.0, k.0, e))
      (from_le-injective xs ys h.1 k.1 (omega (arith, same)) (omega (arith, h.0, k.0, e)))
