-- ===== src/BitPacking/Bits29To32.antt =====
-- src/util/bit_packing.rs: the unrolled loops for 29 to 32 bits a value.
use parquet_rs.Prelude.{ℕ, List, [], ◌∷◌, ◌%◌, ◌^◌, ◌-◌, bit_or}
use parquet_rs.BitPacking.Word.{Buf, ◌>>>◌, ◌<<<◌}

unfoldable pub unpack29_32 : Buf → List ℕ × ℕ
unpack29_32 in_buf = (
  ((in_buf 0 >>> 0) % 2 ^ 29)
      ∷ (bit_or (in_buf 0 >>> 29) ((in_buf 1 % 2 ^ 26) <<< (29 - 26)))
      ∷ (bit_or (in_buf 1 >>> 26) ((in_buf 2 % 2 ^ 23) <<< (29 - 23)))
      ∷ (bit_or (in_buf 2 >>> 23) ((in_buf 3 % 2 ^ 20) <<< (29 - 20)))
      ∷ (bit_or (in_buf 3 >>> 20) ((in_buf 4 % 2 ^ 17) <<< (29 - 17)))
      ∷ (bit_or (in_buf 4 >>> 17) ((in_buf 5 % 2 ^ 14) <<< (29 - 14)))
      ∷ (bit_or (in_buf 5 >>> 14) ((in_buf 6 % 2 ^ 11) <<< (29 - 11)))
      ∷ (bit_or (in_buf 6 >>> 11) ((in_buf 7 % 2 ^ 8) <<< (29 - 8)))
      ∷ (bit_or (in_buf 7 >>> 8) ((in_buf 8 % 2 ^ 5) <<< (29 - 5)))
      ∷ (bit_or (in_buf 8 >>> 5) ((in_buf 9 % 2 ^ 2) <<< (29 - 2)))
      ∷ ((in_buf 9 >>> 2) % 2 ^ 29)
      ∷ (bit_or (in_buf 9 >>> 31) ((in_buf 10 % 2 ^ 28) <<< (29 - 28)))
      ∷ (bit_or (in_buf 10 >>> 28) ((in_buf 11 % 2 ^ 25) <<< (29 - 25)))
      ∷ (bit_or (in_buf 11 >>> 25) ((in_buf 12 % 2 ^ 22) <<< (29 - 22)))
      ∷ (bit_or (in_buf 12 >>> 22) ((in_buf 13 % 2 ^ 19) <<< (29 - 19)))
      ∷ (bit_or (in_buf 13 >>> 19) ((in_buf 14 % 2 ^ 16) <<< (29 - 16)))
      ∷ (bit_or (in_buf 14 >>> 16) ((in_buf 15 % 2 ^ 13) <<< (29 - 13)))
      ∷ (bit_or (in_buf 15 >>> 13) ((in_buf 16 % 2 ^ 10) <<< (29 - 10)))
      ∷ (bit_or (in_buf 16 >>> 10) ((in_buf 17 % 2 ^ 7) <<< (29 - 7)))
      ∷ (bit_or (in_buf 17 >>> 7) ((in_buf 18 % 2 ^ 4) <<< (29 - 4)))
      ∷ (bit_or (in_buf 18 >>> 4) ((in_buf 19 % 2 ^ 1) <<< (29 - 1)))
      ∷ ((in_buf 19 >>> 1) % 2 ^ 29)
      ∷ (bit_or (in_buf 19 >>> 30) ((in_buf 20 % 2 ^ 27) <<< (29 - 27)))
      ∷ (bit_or (in_buf 20 >>> 27) ((in_buf 21 % 2 ^ 24) <<< (29 - 24)))
      ∷ (bit_or (in_buf 21 >>> 24) ((in_buf 22 % 2 ^ 21) <<< (29 - 21)))
      ∷ (bit_or (in_buf 22 >>> 21) ((in_buf 23 % 2 ^ 18) <<< (29 - 18)))
      ∷ (bit_or (in_buf 23 >>> 18) ((in_buf 24 % 2 ^ 15) <<< (29 - 15)))
      ∷ (bit_or (in_buf 24 >>> 15) ((in_buf 25 % 2 ^ 12) <<< (29 - 12)))
      ∷ (bit_or (in_buf 25 >>> 12) ((in_buf 26 % 2 ^ 9) <<< (29 - 9)))
      ∷ (bit_or (in_buf 26 >>> 9) ((in_buf 27 % 2 ^ 6) <<< (29 - 6)))
      ∷ (bit_or (in_buf 27 >>> 6) ((in_buf 28 % 2 ^ 3) <<< (29 - 3)))
      ∷ (in_buf 28 >>> 3)
      ∷ [],
  29,
)

unfoldable pub unpack30_32 : Buf → List ℕ × ℕ
unpack30_32 in_buf = (
  ((in_buf 0 >>> 0) % 2 ^ 30)
      ∷ (bit_or (in_buf 0 >>> 30) ((in_buf 1 % 2 ^ 28) <<< (30 - 28)))
      ∷ (bit_or (in_buf 1 >>> 28) ((in_buf 2 % 2 ^ 26) <<< (30 - 26)))
      ∷ (bit_or (in_buf 2 >>> 26) ((in_buf 3 % 2 ^ 24) <<< (30 - 24)))
      ∷ (bit_or (in_buf 3 >>> 24) ((in_buf 4 % 2 ^ 22) <<< (30 - 22)))
      ∷ (bit_or (in_buf 4 >>> 22) ((in_buf 5 % 2 ^ 20) <<< (30 - 20)))
      ∷ (bit_or (in_buf 5 >>> 20) ((in_buf 6 % 2 ^ 18) <<< (30 - 18)))
      ∷ (bit_or (in_buf 6 >>> 18) ((in_buf 7 % 2 ^ 16) <<< (30 - 16)))
      ∷ (bit_or (in_buf 7 >>> 16) ((in_buf 8 % 2 ^ 14) <<< (30 - 14)))
      ∷ (bit_or (in_buf 8 >>> 14) ((in_buf 9 % 2 ^ 12) <<< (30 - 12)))
      ∷ (bit_or (in_buf 9 >>> 12) ((in_buf 10 % 2 ^ 10) <<< (30 - 10)))
      ∷ (bit_or (in_buf 10 >>> 10) ((in_buf 11 % 2 ^ 8) <<< (30 - 8)))
      ∷ (bit_or (in_buf 11 >>> 8) ((in_buf 12 % 2 ^ 6) <<< (30 - 6)))
      ∷ (bit_or (in_buf 12 >>> 6) ((in_buf 13 % 2 ^ 4) <<< (30 - 4)))
      ∷ (bit_or (in_buf 13 >>> 4) ((in_buf 14 % 2 ^ 2) <<< (30 - 2)))
      ∷ (in_buf 14 >>> 2)
      ∷ ((in_buf 15 >>> 0) % 2 ^ 30)
      ∷ (bit_or (in_buf 15 >>> 30) ((in_buf 16 % 2 ^ 28) <<< (30 - 28)))
      ∷ (bit_or (in_buf 16 >>> 28) ((in_buf 17 % 2 ^ 26) <<< (30 - 26)))
      ∷ (bit_or (in_buf 17 >>> 26) ((in_buf 18 % 2 ^ 24) <<< (30 - 24)))
      ∷ (bit_or (in_buf 18 >>> 24) ((in_buf 19 % 2 ^ 22) <<< (30 - 22)))
      ∷ (bit_or (in_buf 19 >>> 22) ((in_buf 20 % 2 ^ 20) <<< (30 - 20)))
      ∷ (bit_or (in_buf 20 >>> 20) ((in_buf 21 % 2 ^ 18) <<< (30 - 18)))
      ∷ (bit_or (in_buf 21 >>> 18) ((in_buf 22 % 2 ^ 16) <<< (30 - 16)))
      ∷ (bit_or (in_buf 22 >>> 16) ((in_buf 23 % 2 ^ 14) <<< (30 - 14)))
      ∷ (bit_or (in_buf 23 >>> 14) ((in_buf 24 % 2 ^ 12) <<< (30 - 12)))
      ∷ (bit_or (in_buf 24 >>> 12) ((in_buf 25 % 2 ^ 10) <<< (30 - 10)))
      ∷ (bit_or (in_buf 25 >>> 10) ((in_buf 26 % 2 ^ 8) <<< (30 - 8)))
      ∷ (bit_or (in_buf 26 >>> 8) ((in_buf 27 % 2 ^ 6) <<< (30 - 6)))
      ∷ (bit_or (in_buf 27 >>> 6) ((in_buf 28 % 2 ^ 4) <<< (30 - 4)))
      ∷ (bit_or (in_buf 28 >>> 4) ((in_buf 29 % 2 ^ 2) <<< (30 - 2)))
      ∷ (in_buf 29 >>> 2)
      ∷ [],
  30,
)

unfoldable pub unpack31_32 : Buf → List ℕ × ℕ
unpack31_32 in_buf = (
  ((in_buf 0 >>> 0) % 2 ^ 31)
      ∷ (bit_or (in_buf 0 >>> 31) ((in_buf 1 % 2 ^ 30) <<< (31 - 30)))
      ∷ (bit_or (in_buf 1 >>> 30) ((in_buf 2 % 2 ^ 29) <<< (31 - 29)))
      ∷ (bit_or (in_buf 2 >>> 29) ((in_buf 3 % 2 ^ 28) <<< (31 - 28)))
      ∷ (bit_or (in_buf 3 >>> 28) ((in_buf 4 % 2 ^ 27) <<< (31 - 27)))
      ∷ (bit_or (in_buf 4 >>> 27) ((in_buf 5 % 2 ^ 26) <<< (31 - 26)))
      ∷ (bit_or (in_buf 5 >>> 26) ((in_buf 6 % 2 ^ 25) <<< (31 - 25)))
      ∷ (bit_or (in_buf 6 >>> 25) ((in_buf 7 % 2 ^ 24) <<< (31 - 24)))
      ∷ (bit_or (in_buf 7 >>> 24) ((in_buf 8 % 2 ^ 23) <<< (31 - 23)))
      ∷ (bit_or (in_buf 8 >>> 23) ((in_buf 9 % 2 ^ 22) <<< (31 - 22)))
      ∷ (bit_or (in_buf 9 >>> 22) ((in_buf 10 % 2 ^ 21) <<< (31 - 21)))
      ∷ (bit_or (in_buf 10 >>> 21) ((in_buf 11 % 2 ^ 20) <<< (31 - 20)))
      ∷ (bit_or (in_buf 11 >>> 20) ((in_buf 12 % 2 ^ 19) <<< (31 - 19)))
      ∷ (bit_or (in_buf 12 >>> 19) ((in_buf 13 % 2 ^ 18) <<< (31 - 18)))
      ∷ (bit_or (in_buf 13 >>> 18) ((in_buf 14 % 2 ^ 17) <<< (31 - 17)))
      ∷ (bit_or (in_buf 14 >>> 17) ((in_buf 15 % 2 ^ 16) <<< (31 - 16)))
      ∷ (bit_or (in_buf 15 >>> 16) ((in_buf 16 % 2 ^ 15) <<< (31 - 15)))
      ∷ (bit_or (in_buf 16 >>> 15) ((in_buf 17 % 2 ^ 14) <<< (31 - 14)))
      ∷ (bit_or (in_buf 17 >>> 14) ((in_buf 18 % 2 ^ 13) <<< (31 - 13)))
      ∷ (bit_or (in_buf 18 >>> 13) ((in_buf 19 % 2 ^ 12) <<< (31 - 12)))
      ∷ (bit_or (in_buf 19 >>> 12) ((in_buf 20 % 2 ^ 11) <<< (31 - 11)))
      ∷ (bit_or (in_buf 20 >>> 11) ((in_buf 21 % 2 ^ 10) <<< (31 - 10)))
      ∷ (bit_or (in_buf 21 >>> 10) ((in_buf 22 % 2 ^ 9) <<< (31 - 9)))
      ∷ (bit_or (in_buf 22 >>> 9) ((in_buf 23 % 2 ^ 8) <<< (31 - 8)))
      ∷ (bit_or (in_buf 23 >>> 8) ((in_buf 24 % 2 ^ 7) <<< (31 - 7)))
      ∷ (bit_or (in_buf 24 >>> 7) ((in_buf 25 % 2 ^ 6) <<< (31 - 6)))
      ∷ (bit_or (in_buf 25 >>> 6) ((in_buf 26 % 2 ^ 5) <<< (31 - 5)))
      ∷ (bit_or (in_buf 26 >>> 5) ((in_buf 27 % 2 ^ 4) <<< (31 - 4)))
      ∷ (bit_or (in_buf 27 >>> 4) ((in_buf 28 % 2 ^ 3) <<< (31 - 3)))
      ∷ (bit_or (in_buf 28 >>> 3) ((in_buf 29 % 2 ^ 2) <<< (31 - 2)))
      ∷ (bit_or (in_buf 29 >>> 2) ((in_buf 30 % 2 ^ 1) <<< (31 - 1)))
      ∷ (in_buf 30 >>> 1)
      ∷ [],
  31,
)

unfoldable pub unpack32_32 : Buf → List ℕ × ℕ
unpack32_32 in_buf = (
  (in_buf 0 >>> 0)
      ∷ (in_buf 1 >>> 0)
      ∷ (in_buf 2 >>> 0)
      ∷ (in_buf 3 >>> 0)
      ∷ (in_buf 4 >>> 0)
      ∷ (in_buf 5 >>> 0)
      ∷ (in_buf 6 >>> 0)
      ∷ (in_buf 7 >>> 0)
      ∷ (in_buf 8 >>> 0)
      ∷ (in_buf 9 >>> 0)
      ∷ (in_buf 10 >>> 0)
      ∷ (in_buf 11 >>> 0)
      ∷ (in_buf 12 >>> 0)
      ∷ (in_buf 13 >>> 0)
      ∷ (in_buf 14 >>> 0)
      ∷ (in_buf 15 >>> 0)
      ∷ (in_buf 16 >>> 0)
      ∷ (in_buf 17 >>> 0)
      ∷ (in_buf 18 >>> 0)
      ∷ (in_buf 19 >>> 0)
      ∷ (in_buf 20 >>> 0)
      ∷ (in_buf 21 >>> 0)
      ∷ (in_buf 22 >>> 0)
      ∷ (in_buf 23 >>> 0)
      ∷ (in_buf 24 >>> 0)
      ∷ (in_buf 25 >>> 0)
      ∷ (in_buf 26 >>> 0)
      ∷ (in_buf 27 >>> 0)
      ∷ (in_buf 28 >>> 0)
      ∷ (in_buf 29 >>> 0)
      ∷ (in_buf 30 >>> 0)
      ∷ (in_buf 31 >>> 0)
      ∷ [],
  32,
)
