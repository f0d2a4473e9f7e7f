-- ===== src/BitPacking/Widths.antt =====
-- src/util/bit_packing.rs: each unrolled loop computes, step for step, what the loop of `Reference` does.
use parquet_rs.BitPacking.Bits1To4.{unpack1_32, unpack2_32, unpack3_32, unpack4_32}
use parquet_rs.BitPacking.Bits5To8.{unpack5_32, unpack6_32, unpack7_32, unpack8_32}
use parquet_rs.BitPacking.Bits9To12.{unpack9_32, unpack10_32, unpack11_32, unpack12_32}
use parquet_rs.BitPacking.Bits13To16.{unpack13_32, unpack14_32, unpack15_32, unpack16_32}
use parquet_rs.BitPacking.Bits17To20.{unpack17_32, unpack18_32, unpack19_32, unpack20_32}
use parquet_rs.BitPacking.Bits21To24.{unpack21_32, unpack22_32, unpack23_32, unpack24_32}
use parquet_rs.BitPacking.Bits25To28.{unpack25_32, unpack26_32, unpack27_32, unpack28_32}
use parquet_rs.BitPacking.Bits29To32.{unpack29_32, unpack30_32, unpack31_32, unpack32_32}
use parquet_rs.Prelude.{ℕ, ◌/◌, ◌%◌, ◌^◌, ◌<◌, ◌≡◌, refl, arith, bit_and-one}
use parquet_rs.BitPacking.Word.{Buf}
use parquet_rs.BitPacking.Stream.{IsU32Buf}
use parquet_rs.BitPacking.Reference.{loop}

-- The code also masks a field that ends at the top of its word, which changes nothing.
top_nibble : (a : ℕ) → a < 2 ^ 32 → a / 2 ^ 28 % 2 ^ 4 ≡ a / 2 ^ 28
top_nibble a h = omega arith

top_nibble_wide : (a : ℕ) → a < 2 ^ 32 → a / 2 ^ 28 % 2 ^ 5 ≡ a / 2 ^ 28
top_nibble_wide a h = omega arith

pub unpack1_32-eq-loop : (w : Buf) → unpack1_32 w ≡ (loop 1 w, 1)
unfolding unpack1_32
unpack1_32-eq-loop w = simp bit_and-one

pub unpack2_32-eq-loop : (w : Buf) → unpack2_32 w ≡ (loop 2 w, 2)
unfolding unpack2_32
unpack2_32-eq-loop w = refl

pub unpack3_32-eq-loop : (w : Buf) → unpack3_32 w ≡ (loop 3 w, 3)
unfolding unpack3_32
unpack3_32-eq-loop w = refl

pub unpack4_32-eq-loop : (w : Buf) → IsU32Buf w → unpack4_32 w ≡ (loop 4 w, 4)
unfolding unpack4_32
unpack4_32-eq-loop w h =
    rw (
      top_nibble (w 0) (h 0),
      top_nibble (w 1) (h 1),
      top_nibble (w 2) (h 2),
      top_nibble (w 3) (h 3),
    )

pub unpack5_32-eq-loop : (w : Buf) → IsU32Buf w → unpack5_32 w ≡ (loop 5 w, 5)
unfolding unpack5_32
unpack5_32-eq-loop w h = rw (top_nibble_wide (w 1) (h 1))

pub unpack6_32-eq-loop : (w : Buf) → unpack6_32 w ≡ (loop 6 w, 6)
unfolding unpack6_32
unpack6_32-eq-loop w = refl

pub unpack7_32-eq-loop : (w : Buf) → unpack7_32 w ≡ (loop 7 w, 7)
unfolding unpack7_32
unpack7_32-eq-loop w = refl

pub unpack8_32-eq-loop : (w : Buf) → unpack8_32 w ≡ (loop 8 w, 8)
unfolding unpack8_32
unpack8_32-eq-loop w = refl

pub unpack9_32-eq-loop : (w : Buf) → unpack9_32 w ≡ (loop 9 w, 9)
unfolding unpack9_32
unpack9_32-eq-loop w = refl

pub unpack10_32-eq-loop : (w : Buf) → unpack10_32 w ≡ (loop 10 w, 10)
unfolding unpack10_32
unpack10_32-eq-loop w = refl

pub unpack11_32-eq-loop : (w : Buf) → unpack11_32 w ≡ (loop 11 w, 11)
unfolding unpack11_32
unpack11_32-eq-loop w = refl

pub unpack12_32-eq-loop : (w : Buf) → unpack12_32 w ≡ (loop 12 w, 12)
unfolding unpack12_32
unpack12_32-eq-loop w = refl

pub unpack13_32-eq-loop : (w : Buf) → unpack13_32 w ≡ (loop 13 w, 13)
unfolding unpack13_32
unpack13_32-eq-loop w = refl

pub unpack14_32-eq-loop : (w : Buf) → unpack14_32 w ≡ (loop 14 w, 14)
unfolding unpack14_32
unpack14_32-eq-loop w = refl

pub unpack15_32-eq-loop : (w : Buf) → unpack15_32 w ≡ (loop 15 w, 15)
unfolding unpack15_32
unpack15_32-eq-loop w = refl

pub unpack16_32-eq-loop : (w : Buf) → unpack16_32 w ≡ (loop 16 w, 16)
unfolding unpack16_32
unpack16_32-eq-loop w = refl

pub unpack17_32-eq-loop : (w : Buf) → unpack17_32 w ≡ (loop 17 w, 17)
unfolding unpack17_32
unpack17_32-eq-loop w = refl

pub unpack18_32-eq-loop : (w : Buf) → unpack18_32 w ≡ (loop 18 w, 18)
unfolding unpack18_32
unpack18_32-eq-loop w = refl

pub unpack19_32-eq-loop : (w : Buf) → unpack19_32 w ≡ (loop 19 w, 19)
unfolding unpack19_32
unpack19_32-eq-loop w = refl

pub unpack20_32-eq-loop : (w : Buf) → unpack20_32 w ≡ (loop 20 w, 20)
unfolding unpack20_32
unpack20_32-eq-loop w = refl

pub unpack21_32-eq-loop : (w : Buf) → unpack21_32 w ≡ (loop 21 w, 21)
unfolding unpack21_32
unpack21_32-eq-loop w = refl

pub unpack22_32-eq-loop : (w : Buf) → unpack22_32 w ≡ (loop 22 w, 22)
unfolding unpack22_32
unpack22_32-eq-loop w = refl

pub unpack23_32-eq-loop : (w : Buf) → unpack23_32 w ≡ (loop 23 w, 23)
unfolding unpack23_32
unpack23_32-eq-loop w = refl

pub unpack24_32-eq-loop : (w : Buf) → unpack24_32 w ≡ (loop 24 w, 24)
unfolding unpack24_32
unpack24_32-eq-loop w = refl

pub unpack25_32-eq-loop : (w : Buf) → unpack25_32 w ≡ (loop 25 w, 25)
unfolding unpack25_32
unpack25_32-eq-loop w = refl

pub unpack26_32-eq-loop : (w : Buf) → unpack26_32 w ≡ (loop 26 w, 26)
unfolding unpack26_32
unpack26_32-eq-loop w = refl

pub unpack27_32-eq-loop : (w : Buf) → unpack27_32 w ≡ (loop 27 w, 27)
unfolding unpack27_32
unpack27_32-eq-loop w = refl

pub unpack28_32-eq-loop : (w : Buf) → unpack28_32 w ≡ (loop 28 w, 28)
unfolding unpack28_32
unpack28_32-eq-loop w = refl

pub unpack29_32-eq-loop : (w : Buf) → unpack29_32 w ≡ (loop 29 w, 29)
unfolding unpack29_32
unpack29_32-eq-loop w = refl

pub unpack30_32-eq-loop : (w : Buf) → unpack30_32 w ≡ (loop 30 w, 30)
unfolding unpack30_32
unpack30_32-eq-loop w = refl

pub unpack31_32-eq-loop : (w : Buf) → unpack31_32 w ≡ (loop 31 w, 31)
unfolding unpack31_32
unpack31_32-eq-loop w = refl

pub unpack32_32-eq-loop : (w : Buf) → unpack32_32 w ≡ (loop 32 w, 32)
unfolding unpack32_32
unpack32_32-eq-loop w = refl
