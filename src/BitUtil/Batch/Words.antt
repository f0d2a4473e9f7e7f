-- ===== src/BitUtil/Batch/Words.antt =====
-- src/util/bit_util.rs: the words that `unpack32` reads from the bytes of a `BitReader`.
use parquet_rs.BitUtil.Batch.{words}
use parquet_rs.BitUtil.Batch.Fields.{fields}
use parquet_rs.BitUtil.Reader.GetValue.{field_at}
use parquet_rs.BitPacking.{unpack32}
use parquet_rs.BitPacking.Stream.{stream, field, IsU32Buf}
use parquet_rs.BitPacking.Correct.{unpack32_lem}
use parquet_rs.Prelude.{
  ℕ, zero, suc, ◌+◌, ◌-◌, ◌*◌, ◌/◌, ◌%◌, ◌^◌, ◌≤◌, ◌<◌, List, ◌∷◌, take, drop, drop-drop, map,
  range, All, All-drop, some, ◌≡◌, refl, sym, ap, ap₂, ◌∙◌, arith, mod_parts, mod_shift,
  shift_shift, mod_mod_pow,
}
use parquet_rs.Prelude.Bytes.{IsByte, from_le, from_le-take, from_le-drop, byte_pow-eq-two_pow}

first_word : (bytes : List ℕ) → All IsByte bytes → from_le (take 4 bytes) ≡ from_le bytes % 2 ^ 32
first_word bytes h = from_le-take 4 bytes h

pub words-IsU32Buf : (bytes : List ℕ) → All IsByte bytes → IsU32Buf (words bytes)
words-IsU32Buf bytes h j =
    omega (arith, first_word (drop (4 * j) bytes) (All-drop IsByte (4 * j) bytes h))

words-suc : (bytes : List ℕ) → (λ (j : ℕ). words bytes (suc j)) ≡ words (drop 4 bytes)
words-suc bytes = λ i j. step j i
  where
    step : (j : ℕ) → words bytes (suc j) ≡ words (drop 4 bytes) j
    step j =
        ap (λ (k : ℕ). from_le (take 4 (drop k bytes)))
          (let e : 4 * suc j ≡ 4 + 4 * j = omega arith in e)
        ∙ ap (λ (l : List ℕ). from_le (take 4 l)) (sym (drop-drop (4 * j) 4 bytes))

-- The words spell the same number as the bytes.
stream-words :
    (k : ℕ) (bytes : List ℕ)
    → All IsByte bytes
    → stream k (words bytes) ≡ from_le bytes % 2 ^ (32 * k)
stream-words zero bytes h = omega arith
stream-words (suc k) bytes h =
    ap₂ (λ (x y : ℕ). x + 2 ^ 32 * y) (first_word bytes h)
      (ap (stream k) (words-suc bytes)
        ∙ stream-words k (drop 4 bytes) (All-drop IsByte 4 bytes h)
        ∙ ap (λ (t : ℕ). t % 2 ^ (32 * k)) (from_le-drop 4 bytes h))
    ∙ omega (
      arith,
      mod_parts (from_le bytes) 32 (32 * k),
      ap (λ (t : ℕ). from_le bytes % 2 ^ t) (let e : 32 * suc k ≡ 32 + 32 * k = omega arith in e),
    )

-- A field of the words is one of the bytes.
field-words :
    (bytes : List ℕ) (off n i : ℕ)
    → All IsByte bytes
    → i < 32
    → field (stream n (words (drop off bytes))) (n * i) n ≡ field_at bytes (8 * off + n * i) n
field-words bytes off n i h below =
    ap (λ (x : ℕ). field x (n * i) n)
      (stream-words n (drop off bytes) (All-drop IsByte off bytes h))
    ∙ ap (λ (x : ℕ). x % 2 ^ n) (inside (from_le (drop off bytes)))
    ∙ mod_mod_pow (from_le (drop off bytes) / 2 ^ (n * i)) n (32 * n - n * i) (grind arith)
    ∙ ap (λ (x : ℕ). x / 2 ^ (n * i) % 2 ^ n)
        (from_le-drop off bytes h ∙ ap (λ (t : ℕ). from_le bytes / t) (byte_pow-eq-two_pow off))
    ∙ ap (λ (x : ℕ). x % 2 ^ n) (shift_shift (from_le bytes) (8 * off) (n * i))
  where
    inside : (x : ℕ) → x % 2 ^ (32 * n) / 2 ^ (n * i) ≡ x / 2 ^ (n * i) % 2 ^ (32 * n - n * i)
    inside x =
        ap (λ (t : ℕ). x % 2 ^ t / 2 ^ (n * i))
          (let e : 32 * n ≡ n * i + (32 * n - n * i) = grind arith in e)
        ∙ mod_shift x (n * i) (32 * n - n * i)

map-fields :
    (bytes : List ℕ) (off n from k : ℕ)
    → All IsByte bytes
    → from + k ≤ 32
    → map (λ i. field (stream n (words (drop off bytes))) (n * i) n) (range from k)
      ≡ fields bytes n k (8 * off + n * from)
map-fields bytes off n from zero h fits = refl
map-fields bytes off n from (suc k) h fits =
    ap₂ ◌∷◌ (field-words bytes off n from h (omega arith)) (
      map-fields bytes off n (suc from) k h (omega arith)
      ∙ ap (fields bytes n k)
          (let e : 8 * off + n * suc from ≡ 8 * off + n * from + n = omega arith in e))

-- One call of `unpack32`, on the bytes from `off` on.
pub unpack32-fields :
    (bytes : List ℕ) (off n : ℕ)
    → All IsByte bytes
    → n ≤ 32
    → unpack32 (words (drop off bytes)) n ≡ some (fields bytes n 32 (8 * off), n)
unpack32-fields bytes off n h word =
    unpack32_lem (words (drop off bytes)) n
      (words-IsU32Buf (drop off bytes) (All-drop IsByte off bytes h)) word
    ∙ ap (λ (vs : List ℕ). some (vs, n))
        (map-fields bytes off n 0 32 h (omega arith)
          ∙ ap (fields bytes n 32) (let e : 8 * off + n * 0 ≡ 8 * off = omega arith in e))
