-- ===== src/BitPacking/Bits25To28.antt =====
-- src/util/bit_packing.rs: the unrolled loops for 25 to 28 bits a value.
use parquet_rs.Prelude.{ℕ, List, [], ◌∷◌, ◌%◌, ◌^◌, ◌-◌, bit_or}
use parquet_rs.BitPacking.Word.{Buf, ◌>>>◌, ◌<<<◌}

unfoldable pub unpack25_32 : Buf → List ℕ × ℕ
unpack25_32 in_buf = (
  ((in_buf 0 >>> 0) % 2 ^ 25)
      ∷ (bit_or (in_buf 0 >>> 25) ((in_buf 1 % 2 ^ 18) <<< (25 - 18)))
      ∷ (bit_or (in_buf 1 >>> 18) ((in_buf 2 % 2 ^ 11) <<< (25 - 11)))
      ∷ (bit_or (in_buf 2 >>> 11) ((in_buf 3 % 2 ^ 4) <<< (25 - 4)))
      ∷ ((in_buf 3 >>> 4) % 2 ^ 25)
      ∷ (bit_or (in_buf 3 >>> 29) ((in_buf 4 % 2 ^ 22) <<< (25 - 22)))
      ∷ (bit_or (in_buf 4 >>> 22) ((in_buf 5 % 2 ^ 15) <<< (25 - 15)))
      ∷ (bit_or (in_buf 5 >>> 15) ((in_buf 6 % 2 ^ 8) <<< (25 - 8)))
      ∷ (bit_or (in_buf 6 >>> 8) ((in_buf 7 % 2 ^ 1) <<< (25 - 1)))
      ∷ ((in_buf 7 >>> 1) % 2 ^ 25)
      ∷ (bit_or (in_buf 7 >>> 26) ((in_buf 8 % 2 ^ 19) <<< (25 - 19)))
      ∷ (bit_or (in_buf 8 >>> 19) ((in_buf 9 % 2 ^ 12) <<< (25 - 12)))
      ∷ (bit_or (in_buf 9 >>> 12) ((in_buf 10 % 2 ^ 5) <<< (25 - 5)))
      ∷ ((in_buf 10 >>> 5) % 2 ^ 25)
      ∷ (bit_or (in_buf 10 >>> 30) ((in_buf 11 % 2 ^ 23) <<< (25 - 23)))
      ∷ (bit_or (in_buf 11 >>> 23) ((in_buf 12 % 2 ^ 16) <<< (25 - 16)))
      ∷ (bit_or (in_buf 12 >>> 16) ((in_buf 13 % 2 ^ 9) <<< (25 - 9)))
      ∷ (bit_or (in_buf 13 >>> 9) ((in_buf 14 % 2 ^ 2) <<< (25 - 2)))
      ∷ ((in_buf 14 >>> 2) % 2 ^ 25)
      ∷ (bit_or (in_buf 14 >>> 27) ((in_buf 15 % 2 ^ 20) <<< (25 - 20)))
      ∷ (bit_or (in_buf 15 >>> 20) ((in_buf 16 % 2 ^ 13) <<< (25 - 13)))
      ∷ (bit_or (in_buf 16 >>> 13) ((in_buf 17 % 2 ^ 6) <<< (25 - 6)))
      ∷ ((in_buf 17 >>> 6) % 2 ^ 25)
      ∷ (bit_or (in_buf 17 >>> 31) ((in_buf 18 % 2 ^ 24) <<< (25 - 24)))
      ∷ (bit_or (in_buf 18 >>> 24) ((in_buf 19 % 2 ^ 17) <<< (25 - 17)))
      ∷ (bit_or (in_buf 19 >>> 17) ((in_buf 20 % 2 ^ 10) <<< (25 - 10)))
      ∷ (bit_or (in_buf 20 >>> 10) ((in_buf 21 % 2 ^ 3) <<< (25 - 3)))
      ∷ ((in_buf 21 >>> 3) % 2 ^ 25)
      ∷ (bit_or (in_buf 21 >>> 28) ((in_buf 22 % 2 ^ 21) <<< (25 - 21)))
      ∷ (bit_or (in_buf 22 >>> 21) ((in_buf 23 % 2 ^ 14) <<< (25 - 14)))
      ∷ (bit_or (in_buf 23 >>> 14) ((in_buf 24 % 2 ^ 7) <<< (25 - 7)))
      ∷ (in_buf 24 >>> 7)
      ∷ [],
  25,
)

unfoldable pub unpack26_32 : Buf → List ℕ × ℕ
unpack26_32 in_buf = (
  ((in_buf 0 >>> 0) % 2 ^ 26)
      ∷ (bit_or (in_buf 0 >>> 26) ((in_buf 1 % 2 ^ 20) <<< (26 - 20)))
      ∷ (bit_or (in_buf 1 >>> 20) ((in_buf 2 % 2 ^ 14) <<< (26 - 14)))
      ∷ (bit_or (in_buf 2 >>> 14) ((in_buf 3 % 2 ^ 8) <<< (26 - 8)))
      ∷ (bit_or (in_buf 3 >>> 8) ((in_buf 4 % 2 ^ 2) <<< (26 - 2)))
      ∷ ((in_buf 4 >>> 2) % 2 ^ 26)
      ∷ (bit_or (in_buf 4 >>> 28) ((in_buf 5 % 2 ^ 22) <<< (26 - 22)))
      ∷ (bit_or (in_buf 5 >>> 22) ((in_buf 6 % 2 ^ 16) <<< (26 - 16)))
      ∷ (bit_or (in_buf 6 >>> 16) ((in_buf 7 % 2 ^ 10) <<< (26 - 10)))
      ∷ (bit_or (in_buf 7 >>> 10) ((in_buf 8 % 2 ^ 4) <<< (26 - 4)))
      ∷ ((in_buf 8 >>> 4) % 2 ^ 26)
      ∷ (bit_or (in_buf 8 >>> 30) ((in_buf 9 % 2 ^ 24) <<< (26 - 24)))
      ∷ (bit_or (in_buf 9 >>> 24) ((in_buf 10 % 2 ^ 18) <<< (26 - 18)))
      ∷ (bit_or (in_buf 10 >>> 18) ((in_buf 11 % 2 ^ 12) <<< (26 - 12)))
      ∷ (bit_or (in_buf 11 >>> 12) ((in_buf 12 % 2 ^ 6) <<< (26 - 6)))
      ∷ (in_buf 12 >>> 6)
      ∷ ((in_buf 13 >>> 0) % 2 ^ 26)
      ∷ (bit_or (in_buf 13 >>> 26) ((in_buf 14 % 2 ^ 20) <<< (26 - 20)))
      ∷ (bit_or (in_buf 14 >>> 20) ((in_buf 15 % 2 ^ 14) <<< (26 - 14)))
      ∷ (bit_or (in_buf 15 >>> 14) ((in_buf 16 % 2 ^ 8) <<< (26 - 8)))
      ∷ (bit_or (in_buf 16 >>> 8) ((in_buf 17 % 2 ^ 2) <<< (26 - 2)))
      ∷ ((in_buf 17 >>> 2) % 2 ^ 26)
      ∷ (bit_or (in_buf 17 >>> 28) ((in_buf 18 % 2 ^ 22) <<< (26 - 22)))
      ∷ (bit_or (in_buf 18 >>> 22) ((in_buf 19 % 2 ^ 16) <<< (26 - 16)))
      ∷ (bit_or (in_buf 19 >>> 16) ((in_buf 20 % 2 ^ 10) <<< (26 - 10)))
      ∷ (bit_or (in_buf 20 >>> 10) ((in_buf 21 % 2 ^ 4) <<< (26 - 4)))
      ∷ ((in_buf 21 >>> 4) % 2 ^ 26)
      ∷ (bit_or (in_buf 21 >>> 30) ((in_buf 22 % 2 ^ 24) <<< (26 - 24)))
      ∷ (bit_or (in_buf 22 >>> 24) ((in_buf 23 % 2 ^ 18) <<< (26 - 18)))
      ∷ (bit_or (in_buf 23 >>> 18) ((in_buf 24 % 2 ^ 12) <<< (26 - 12)))
      ∷ (bit_or (in_buf 24 >>> 12) ((in_buf 25 % 2 ^ 6) <<< (26 - 6)))
      ∷ (in_buf 25 >>> 6)
      ∷ [],
  26,
)

unfoldable pub unpack27_32 : Buf → List ℕ × ℕ
unpack27_32 in_buf = (
  ((in_buf 0 >>> 0) % 2 ^ 27)
      ∷ (bit_or (in_buf 0 >>> 27) ((in_buf 1 % 2 ^ 22) <<< (27 - 22)))
      ∷ (bit_or (in_buf 1 >>> 22) ((in_buf 2 % 2 ^ 17) <<< (27 - 17)))
      ∷ (bit_or (in_buf 2 >>> 17) ((in_buf 3 % 2 ^ 12) <<< (27 - 12)))
      ∷ (bit_or (in_buf 3 >>> 12) ((in_buf 4 % 2 ^ 7) <<< (27 - 7)))
      ∷ (bit_or (in_buf 4 >>> 7) ((in_buf 5 % 2 ^ 2) <<< (27 - 2)))
      ∷ ((in_buf 5 >>> 2) % 2 ^ 27)
      ∷ (bit_or (in_buf 5 >>> 29) ((in_buf 6 % 2 ^ 24) <<< (27 - 24)))
      ∷ (bit_or (in_buf 6 >>> 24) ((in_buf 7 % 2 ^ 19) <<< (27 - 19)))
      ∷ (bit_or (in_buf 7 >>> 19) ((in_buf 8 % 2 ^ 14) <<< (27 - 14)))
      ∷ (bit_or (in_buf 8 >>> 14) ((in_buf 9 % 2 ^ 9) <<< (27 - 9)))
      ∷ (bit_or (in_buf 9 >>> 9) ((in_buf 10 % 2 ^ 4) <<< (27 - 4)))
      ∷ ((in_buf 10 >>> 4) % 2 ^ 27)
      ∷ (bit_or (in_buf 10 >>> 31) ((in_buf 11 % 2 ^ 26) <<< (27 - 26)))
      ∷ (bit_or (in_buf 11 >>> 26) ((in_buf 12 % 2 ^ 21) <<< (27 - 21)))
      ∷ (bit_or (in_buf 12 >>> 21) ((in_buf 13 % 2 ^ 16) <<< (27 - 16)))
      ∷ (bit_or (in_buf 13 >>> 16) ((in_buf 14 % 2 ^ 11) <<< (27 - 11)))
      ∷ (bit_or (in_buf 14 >>> 11) ((in_buf 15 % 2 ^ 6) <<< (27 - 6)))
      ∷ (bit_or (in_buf 15 >>> 6) ((in_buf 16 % 2 ^ 1) <<< (27 - 1)))
      ∷ ((in_buf 16 >>> 1) % 2 ^ 27)
      ∷ (bit_or (in_buf 16 >>> 28) ((in_buf 17 % 2 ^ 23) <<< (27 - 23)))
      ∷ (bit_or (in_buf 17 >>> 23) ((in_buf 18 % 2 ^ 18) <<< (27 - 18)))
      ∷ (bit_or (in_buf 18 >>> 18) ((in_buf 19 % 2 ^ 13) <<< (27 - 13)))
      ∷ (bit_or (in_buf 19 >>> 13) ((in_buf 20 % 2 ^ 8) <<< (27 - 8)))
      ∷ (bit_or (in_buf 20 >>> 8) ((in_buf 21 % 2 ^ 3) <<< (27 - 3)))
      ∷ ((in_buf 21 >>> 3) % 2 ^ 27)
      ∷ (bit_or (in_buf 21 >>> 30) ((in_buf 22 % 2 ^ 25) <<< (27 - 25)))
      ∷ (bit_or (in_buf 22 >>> 25) ((in_buf 23 % 2 ^ 20) <<< (27 - 20)))
      ∷ (bit_or (in_buf 23 >>> 20) ((in_buf 24 % 2 ^ 15) <<< (27 - 15)))
      ∷ (bit_or (in_buf 24 >>> 15) ((in_buf 25 % 2 ^ 10) <<< (27 - 10)))
      ∷ (bit_or (in_buf 25 >>> 10) ((in_buf 26 % 2 ^ 5) <<< (27 - 5)))
      ∷ (in_buf 26 >>> 5)
      ∷ [],
  27,
)

unfoldable pub unpack28_32 : Buf → List ℕ × ℕ
unpack28_32 in_buf = (
  ((in_buf 0 >>> 0) % 2 ^ 28)
      ∷ (bit_or (in_buf 0 >>> 28) ((in_buf 1 % 2 ^ 24) <<< (28 - 24)))
      ∷ (bit_or (in_buf 1 >>> 24) ((in_buf 2 % 2 ^ 20) <<< (28 - 20)))
      ∷ (bit_or (in_buf 2 >>> 20) ((in_buf 3 % 2 ^ 16) <<< (28 - 16)))
      ∷ (bit_or (in_buf 3 >>> 16) ((in_buf 4 % 2 ^ 12) <<< (28 - 12)))
      ∷ (bit_or (in_buf 4 >>> 12) ((in_buf 5 % 2 ^ 8) <<< (28 - 8)))
      ∷ (bit_or (in_buf 5 >>> 8) ((in_buf 6 % 2 ^ 4) <<< (28 - 4)))
      ∷ (in_buf 6 >>> 4)
      ∷ ((in_buf 7 >>> 0) % 2 ^ 28)
      ∷ (bit_or (in_buf 7 >>> 28) ((in_buf 8 % 2 ^ 24) <<< (28 - 24)))
      ∷ (bit_or (in_buf 8 >>> 24) ((in_buf 9 % 2 ^ 20) <<< (28 - 20)))
      ∷ (bit_or (in_buf 9 >>> 20) ((in_buf 10 % 2 ^ 16) <<< (28 - 16)))
      ∷ (bit_or (in_buf 10 >>> 16) ((in_buf 11 % 2 ^ 12) <<< (28 - 12)))
      ∷ (bit_or (in_buf 11 >>> 12) ((in_buf 12 % 2 ^ 8) <<< (28 - 8)))
      ∷ (bit_or (in_buf 12 >>> 8) ((in_buf 13 % 2 ^ 4) <<< (28 - 4)))
      ∷ (in_buf 13 >>> 4)
      ∷ ((in_buf 14 >>> 0) % 2 ^ 28)
      ∷ (bit_or (in_buf 14 >>> 28) ((in_buf 15 % 2 ^ 24) <<< (28 - 24)))
      ∷ (bit_or (in_buf 15 >>> 24) ((in_buf 16 % 2 ^ 20) <<< (28 - 20)))
      ∷ (bit_or (in_buf 16 >>> 20) ((in_buf 17 % 2 ^ 16) <<< (28 - 16)))
      ∷ (bit_or (in_buf 17 >>> 16) ((in_buf 18 % 2 ^ 12) <<< (28 - 12)))
      ∷ (bit_or (in_buf 18 >>> 12) ((in_buf 19 % 2 ^ 8) <<< (28 - 8)))
      ∷ (bit_or (in_buf 19 >>> 8) ((in_buf 20 % 2 ^ 4) <<< (28 - 4)))
      ∷ (in_buf 20 >>> 4)
      ∷ ((in_buf 21 >>> 0) % 2 ^ 28)
      ∷ (bit_or (in_buf 21 >>> 28) ((in_buf 22 % 2 ^ 24) <<< (28 - 24)))
      ∷ (bit_or (in_buf 22 >>> 24) ((in_buf 23 % 2 ^ 20) <<< (28 - 20)))
      ∷ (bit_or (in_buf 23 >>> 20) ((in_buf 24 % 2 ^ 16) <<< (28 - 16)))
      ∷ (bit_or (in_buf 24 >>> 16) ((in_buf 25 % 2 ^ 12) <<< (28 - 12)))
      ∷ (bit_or (in_buf 25 >>> 12) ((in_buf 26 % 2 ^ 8) <<< (28 - 8)))
      ∷ (bit_or (in_buf 26 >>> 8) ((in_buf 27 % 2 ^ 4) <<< (28 - 4)))
      ∷ (in_buf 27 >>> 4)
      ∷ [],
  28,
)
