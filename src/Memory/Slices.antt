-- ===== src/Memory/Slices.antt =====
-- src/util/memory.rs: what the slices of a buffer hold.
use parquet_rs.Memory.{BufferPtr, new, content, range}
use parquet_rs.Prelude.{
  ℕ, ◌+◌, ◌≤◌, List, [], ◌∷◌, length, take, drop, ok, ◌>>◌, assert, le→leb, ◌≡◌, refl, ap, ◌∙◌,
  arith,
}

pub take_length : {A : Type 0} (l : List A) → take (length l) l ≡ l
take_length [] = refl
take_length (x ∷ l) = ap (λ t. x ∷ t) (take_length l)

pub content-new : {A : Type 0} (l : List A) → content (new l) ≡ ok l
unfolding content new
content-new l =
    ap (λ b. assert b >> ok (take (length l) l)) (le→leb (0 + length l) (length l) (omega arith))
    ∙ ap ok (take_length l)

-- A range of a whole buffer.
pub range-new :
    {A : Type 0} (l : List A) (at n : ℕ)
    → at + n ≤ length l
    → (p : BufferPtr A) × (range at n (new l) ≡ ok p) × (content p ≡ ok (take n (drop at l)))
unfolding content range new
range-new l at n h = (
  record { items = l; start = 0 + at; len = n },
  ap (λ b. assert b >> ok (record { items = l; start = 0 + at; len = n })) (le→leb _ _ h),
  ap (λ b. assert b >> ok (take n (drop (0 + at) l)))
        (le→leb (0 + at + n) (length l) (omega (arith, h)))
      ∙ ap (λ k. ok (take n (drop k l))) (let e : 0 + at ≡ at = omega arith in e),
)
