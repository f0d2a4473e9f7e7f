-- ===== src/BitUtil/Batch/Fields.antt =====
-- The values that a batch of src/util/bit_util.rs should hold: fields of one width, one behind the
-- other.
use parquet_rs.BitUtil.Batch.{stored, store_all}
use parquet_rs.BitUtil.Reader.GetValue.{field_at}
use parquet_rs.Prelude.{
  ℕ, zero, suc, ◌+◌, ◌*◌, ◌^◌, ◌≤◌, ◌<◌, List, [], ◌∷◌, ◌++◌, length, All, ◌≡◌, refl, ap, ap₂, ◌∙◌,
  arith, two_pow_mono,
}
use native.Mathlib.Nat.{mod-eq_of_lt, mod-lt, div-eq_of_lt}
use parquet_rs.Prelude.{two_pow_pos}
use native.Mathlib.Decide.{dec_lt}

-- `k` fields of `n` bits, the first one at bit `p`.
abbrev pub fields : List ℕ → ℕ → ℕ → ℕ → List ℕ
fields bytes n zero p = []
fields bytes n (suc k) p = field_at bytes p n ∷ fields bytes n k (p + n)

pub length-fields : (bytes : List ℕ) (n k p : ℕ) → length (fields bytes n k p) ≡ k
length-fields bytes n zero p = refl
length-fields bytes n (suc k) p = ap suc (length-fields bytes n k (p + n))

pub fields-append :
    (bytes : List ℕ) (n k l p : ℕ)
    → fields bytes n k p ++ fields bytes n l (p + n * k) ≡ fields bytes n (k + l) p
fields-append bytes n zero l p = ap₂ (fields bytes n) (omega arith) (omega arith)
fields-append bytes n (suc k) l p =
    ap (λ (xs : List ℕ). field_at bytes p n ∷ xs)
      (ap (λ (q : ℕ). fields bytes n k (p + n) ++ fields bytes n l q) (omega arith)
        ∙ fields-append bytes n k l (p + n))
    ∙ ap (λ (m : ℕ). fields bytes n m p) (let e : suc (k + l) ≡ suc k + l = omega arith in e)

-- A place of a wide type keeps its upper bytes, and these should be zero before.
abbrev pub Ready : ℕ → ℕ → Type 0
Ready size_of old = 4 < size_of → old < 2 ^ 32

stored_lem :
    (size_of old v n : ℕ)
    → Ready size_of old
    → v < 2 ^ n
    → n ≤ 32
    → n ≤ 8 * size_of
    → stored size_of old v ≡ v
stored_lem size_of old v n ready small word typed =
    let in_type : v < 2 ^ (8 * size_of) =
      omega (arith, small, two_pow_mono n (8 * size_of) typed) in
    elim (dec_lt 4 size_of) [
      | yes wide ↦ ground (arith, div-eq_of_lt (ready wide))
      | no narrow ↦ ground (arith, mod-eq_of_lt in_type)
    ]

pub store_all-fields :
    (size_of n : ℕ) (bytes : List ℕ) (k p : ℕ) (olds : List ℕ)
    → All (Ready size_of) olds
    → n ≤ 32
    → n ≤ 8 * size_of
    → length olds ≡ k
    → store_all size_of olds (fields bytes n k p) ≡ fields bytes n k p
store_all-fields size_of n bytes zero p [] ready word typed h = refl
store_all-fields size_of n bytes zero p (old ∷ olds) ready word typed h = absurd (omega (arith, h))
store_all-fields size_of n bytes (suc k) p [] ready word typed h = absurd (omega (arith, h))
store_all-fields size_of n bytes (suc k) p (old ∷ olds) ready word typed h =
    ap₂ ◌∷◌
      (stored_lem size_of old (field_at bytes p n) n ready.0 (mod-lt _ (two_pow_pos n)) word typed)
      (store_all-fields size_of n bytes k (p + n) olds ready.1 word typed (omega (arith, h)))
