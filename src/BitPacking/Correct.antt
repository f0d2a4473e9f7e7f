-- ===== src/BitPacking/Correct.antt =====
-- `unpack32` against the bit stream.
use parquet_rs.BitPacking.{unpack32, unpackers, nullunpacker32}
use parquet_rs.BitPacking.Widths.{
  unpack1_32-eq-loop, unpack2_32-eq-loop, unpack3_32-eq-loop, unpack4_32-eq-loop,
  unpack5_32-eq-loop, unpack6_32-eq-loop, unpack7_32-eq-loop, unpack8_32-eq-loop,
  unpack9_32-eq-loop, unpack10_32-eq-loop, unpack11_32-eq-loop, unpack12_32-eq-loop,
  unpack13_32-eq-loop, unpack14_32-eq-loop, unpack15_32-eq-loop, unpack16_32-eq-loop,
  unpack17_32-eq-loop, unpack18_32-eq-loop, unpack19_32-eq-loop, unpack20_32-eq-loop,
  unpack21_32-eq-loop, unpack22_32-eq-loop, unpack23_32-eq-loop, unpack24_32-eq-loop,
  unpack25_32-eq-loop, unpack26_32-eq-loop, unpack27_32-eq-loop, unpack28_32-eq-loop,
  unpack29_32-eq-loop, unpack30_32-eq-loop, unpack31_32-eq-loop, unpack32_32-eq-loop,
}
use parquet_rs.BitPacking.Word.{Buf}
use parquet_rs.BitPacking.Stream.{stream, field, IsU32Buf}
use parquet_rs.BitPacking.Reference.{loop, spec, loop-eq-spec}
use parquet_rs.Prelude.{
  ℕ, zero, suc, ◌+◌, ◌*◌, ◌≤◌, ◌<◌, List, [], ◌∷◌, map, range, length, get_elem?, get_elem?-beyond,
  none, some, ◌≡◌, refl, ap, ◌∙◌, arith,
}
use mathlib.Core.Option

-- The arms from width `n` on.
abbrev AllArms : (w : Buf) → ℕ → List (Buf → List ℕ × ℕ) → Type 0
AllArms w n [] = Unit
AllArms w n (arm ∷ arms) = (arm w ≡ (spec n w, n)) × AllArms w (suc n) arms

arm_lem :
    (w : Buf) (from i : ℕ) (arms : List (Buf → List ℕ × ℕ))
    → AllArms w from arms
    → i < length arms
    → Option.map (λ arm. arm w) (get_elem? arms i) ≡ some (spec (from + i) w, from + i)
arm_lem w from i [] h p = absurd (omega arith)
arm_lem w from zero (arm ∷ arms) h p =
    ap some h.0 ∙ ap (λ (k : ℕ). some (spec k w, k)) (omega arith)
arm_lem w from (suc i) (arm ∷ arms) h p =
    arm_lem w (suc from) i arms h.1 (omega arith) ∙ ap (λ (k : ℕ). some (spec k w, k)) (omega arith)

-- A width whose loop is the one of `Reference`.
arm_by_loop :
    {p : List ℕ × ℕ} (n : ℕ) (w : Buf)
    → IsU32Buf w
    → 0 < n
    → n ≤ 32
    → p ≡ (loop n w, n)
    → p ≡ (spec n w, n)
arm_by_loop n w h pos hn e = e ∙ ap (λ (t : List ℕ). (t, n)) (loop-eq-spec n w h pos hn)

-- One arm in front of the others.
infixr 2 ◌&◌
◌&◌ : {A B : Type 0} → A → B → A × B
first & others = (first, others)

null_arm : (w : Buf) → nullunpacker32 w ≡ (spec 0 w, 0)
unfolding nullunpacker32
null_arm w = refl

unpackers-AllArms : (w : Buf) → IsU32Buf w → AllArms w 0 unpackers
unfolding unpackers
unpackers-AllArms w h =
    null_arm w
    & by 1 (omega arith) (omega arith) (unpack1_32-eq-loop w)
    & by 2 (omega arith) (omega arith) (unpack2_32-eq-loop w)
    & by 3 (omega arith) (omega arith) (unpack3_32-eq-loop w)
    & by 4 (omega arith) (omega arith) (unpack4_32-eq-loop w h)
    & by 5 (omega arith) (omega arith) (unpack5_32-eq-loop w h)
    & by 6 (omega arith) (omega arith) (unpack6_32-eq-loop w)
    & by 7 (omega arith) (omega arith) (unpack7_32-eq-loop w)
    & by 8 (omega arith) (omega arith) (unpack8_32-eq-loop w)
    & by 9 (omega arith) (omega arith) (unpack9_32-eq-loop w)
    & by 10 (omega arith) (omega arith) (unpack10_32-eq-loop w)
    & by 11 (omega arith) (omega arith) (unpack11_32-eq-loop w)
    & by 12 (omega arith) (omega arith) (unpack12_32-eq-loop w)
    & by 13 (omega arith) (omega arith) (unpack13_32-eq-loop w)
    & by 14 (omega arith) (omega arith) (unpack14_32-eq-loop w)
    & by 15 (omega arith) (omega arith) (unpack15_32-eq-loop w)
    & by 16 (omega arith) (omega arith) (unpack16_32-eq-loop w)
    & by 17 (omega arith) (omega arith) (unpack17_32-eq-loop w)
    & by 18 (omega arith) (omega arith) (unpack18_32-eq-loop w)
    & by 19 (omega arith) (omega arith) (unpack19_32-eq-loop w)
    & by 20 (omega arith) (omega arith) (unpack20_32-eq-loop w)
    & by 21 (omega arith) (omega arith) (unpack21_32-eq-loop w)
    & by 22 (omega arith) (omega arith) (unpack22_32-eq-loop w)
    & by 23 (omega arith) (omega arith) (unpack23_32-eq-loop w)
    & by 24 (omega arith) (omega arith) (unpack24_32-eq-loop w)
    & by 25 (omega arith) (omega arith) (unpack25_32-eq-loop w)
    & by 26 (omega arith) (omega arith) (unpack26_32-eq-loop w)
    & by 27 (omega arith) (omega arith) (unpack27_32-eq-loop w)
    & by 28 (omega arith) (omega arith) (unpack28_32-eq-loop w)
    & by 29 (omega arith) (omega arith) (unpack29_32-eq-loop w)
    & by 30 (omega arith) (omega arith) (unpack30_32-eq-loop w)
    & by 31 (omega arith) (omega arith) (unpack31_32-eq-loop w)
    & by 32 (omega arith) (omega arith) (unpack32_32-eq-loop w)
    & tt
  where
    by : {p : List ℕ × ℕ} (n : ℕ) → 0 < n → n ≤ 32 → p ≡ (loop n w, n) → p ≡ (spec n w, n)
    by n pos hn e = arm_by_loop n w h pos hn e

length-unpackers : length unpackers ≡ 33
unfolding unpackers
length-unpackers = refl

-- For every width up to 32 and a pointer to `u32` words, `unpack32` returns the 32 fields of the
-- stream that the words spell, lowest first, and moves its pointer by as many words as the width.
pub unpack32_lem :
    (in_ptr : Buf) (num_bits : ℕ)
    → IsU32Buf in_ptr
    → num_bits ≤ 32
    → unpack32 in_ptr num_bits
      ≡ some
          (map (λ i. field (stream num_bits in_ptr) (num_bits * i) num_bits) (range 0 32), num_bits)
unfolding unpack32
unpack32_lem in_ptr num_bits h hn =
    arm_lem in_ptr 0 num_bits unpackers (unpackers-AllArms in_ptr h)
      (omega (arith, length-unpackers))
    ∙ ap (λ (k : ℕ). some (spec k in_ptr, k)) (omega arith)

-- A wider width reaches `unimplemented!()`.
pub unpack32_wide : (in_ptr : Buf) (num_bits : ℕ) → 32 < num_bits → unpack32 in_ptr num_bits ≡ none
unfolding unpack32
unpack32_wide in_ptr num_bits h =
    ap (Option.map (λ (arm : Buf → List ℕ × ℕ). arm in_ptr))
      (get_elem?-beyond unpackers num_bits (omega (arith, length-unpackers)))
