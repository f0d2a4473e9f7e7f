-- ===== src/BitPacking/Bits17To20.antt =====
-- src/util/bit_packing.rs: the unrolled loops for 17 to 20 bits a value.
use parquet_rs.Prelude.{ℕ, List, [], ◌∷◌, ◌%◌, ◌^◌, ◌-◌, bit_or}
use parquet_rs.BitPacking.Word.{Buf, ◌>>>◌, ◌<<<◌}

unfoldable pub unpack17_32 : Buf → List ℕ × ℕ
unpack17_32 in_buf = (
  ((in_buf 0 >>> 0) % 2 ^ 17)
      ∷ (bit_or (in_buf 0 >>> 17) ((in_buf 1 % 2 ^ 2) <<< (17 - 2)))
      ∷ ((in_buf 1 >>> 2) % 2 ^ 17)
      ∷ (bit_or (in_buf 1 >>> 19) ((in_buf 2 % 2 ^ 4) <<< (17 - 4)))
      ∷ ((in_buf 2 >>> 4) % 2 ^ 17)
      ∷ (bit_or (in_buf 2 >>> 21) ((in_buf 3 % 2 ^ 6) <<< (17 - 6)))
      ∷ ((in_buf 3 >>> 6) % 2 ^ 17)
      ∷ (bit_or (in_buf 3 >>> 23) ((in_buf 4 % 2 ^ 8) <<< (17 - 8)))
      ∷ ((in_buf 4 >>> 8) % 2 ^ 17)
      ∷ (bit_or (in_buf 4 >>> 25) ((in_buf 5 % 2 ^ 10) <<< (17 - 10)))
      ∷ ((in_buf 5 >>> 10) % 2 ^ 17)
      ∷ (bit_or (in_buf 5 >>> 27) ((in_buf 6 % 2 ^ 12) <<< (17 - 12)))
      ∷ ((in_buf 6 >>> 12) % 2 ^ 17)
      ∷ (bit_or (in_buf 6 >>> 29) ((in_buf 7 % 2 ^ 14) <<< (17 - 14)))
      ∷ ((in_buf 7 >>> 14) % 2 ^ 17)
      ∷ (bit_or (in_buf 7 >>> 31) ((in_buf 8 % 2 ^ 16) <<< (17 - 16)))
      ∷ (bit_or (in_buf 8 >>> 16) ((in_buf 9 % 2 ^ 1) <<< (17 - 1)))
      ∷ ((in_buf 9 >>> 1) % 2 ^ 17)
      ∷ (bit_or (in_buf 9 >>> 18) ((in_buf 10 % 2 ^ 3) <<< (17 - 3)))
      ∷ ((in_buf 10 >>> 3) % 2 ^ 17)
      ∷ (bit_or (in_buf 10 >>> 20) ((in_buf 11 % 2 ^ 5) <<< (17 - 5)))
      ∷ ((in_buf 11 >>> 5) % 2 ^ 17)
      ∷ (bit_or (in_buf 11 >>> 22) ((in_buf 12 % 2 ^ 7) <<< (17 - 7)))
      ∷ ((in_buf 12 >>> 7) % 2 ^ 17)
      ∷ (bit_or (in_buf 12 >>> 24) ((in_buf 13 % 2 ^ 9) <<< (17 - 9)))
      ∷ ((in_buf 13 >>> 9) % 2 ^ 17)
      ∷ (bit_or (in_buf 13 >>> 26) ((in_buf 14 % 2 ^ 11) <<< (17 - 11)))
      ∷ ((in_buf 14 >>> 11) % 2 ^ 17)
      ∷ (bit_or (in_buf 14 >>> 28) ((in_buf 15 % 2 ^ 13) <<< (17 - 13)))
      ∷ ((in_buf 15 >>> 13) % 2 ^ 17)
      ∷ (bit_or (in_buf 15 >>> 30) ((in_buf 16 % 2 ^ 15) <<< (17 - 15)))
      ∷ (in_buf 16 >>> 15)
      ∷ [],
  17,
)

unfoldable pub unpack18_32 : Buf → List ℕ × ℕ
unpack18_32 in_buf = (
  ((in_buf 0 >>> 0) % 2 ^ 18)
      ∷ (bit_or (in_buf 0 >>> 18) ((in_buf 1 % 2 ^ 4) <<< (18 - 4)))
      ∷ ((in_buf 1 >>> 4) % 2 ^ 18)
      ∷ (bit_or (in_buf 1 >>> 22) ((in_buf 2 % 2 ^ 8) <<< (18 - 8)))
      ∷ ((in_buf 2 >>> 8) % 2 ^ 18)
      ∷ (bit_or (in_buf 2 >>> 26) ((in_buf 3 % 2 ^ 12) <<< (18 - 12)))
      ∷ ((in_buf 3 >>> 12) % 2 ^ 18)
      ∷ (bit_or (in_buf 3 >>> 30) ((in_buf 4 % 2 ^ 16) <<< (18 - 16)))
      ∷ (bit_or (in_buf 4 >>> 16) ((in_buf 5 % 2 ^ 2) <<< (18 - 2)))
      ∷ ((in_buf 5 >>> 2) % 2 ^ 18)
      ∷ (bit_or (in_buf 5 >>> 20) ((in_buf 6 % 2 ^ 6) <<< (18 - 6)))
      ∷ ((in_buf 6 >>> 6) % 2 ^ 18)
      ∷ (bit_or (in_buf 6 >>> 24) ((in_buf 7 % 2 ^ 10) <<< (18 - 10)))
      ∷ ((in_buf 7 >>> 10) % 2 ^ 18)
      ∷ (bit_or (in_buf 7 >>> 28) ((in_buf 8 % 2 ^ 14) <<< (18 - 14)))
      ∷ (in_buf 8 >>> 14)
      ∷ ((in_buf 9 >>> 0) % 2 ^ 18)
      ∷ (bit_or (in_buf 9 >>> 18) ((in_buf 10 % 2 ^ 4) <<< (18 - 4)))
      ∷ ((in_buf 10 >>> 4) % 2 ^ 18)
      ∷ (bit_or (in_buf 10 >>> 22) ((in_buf 11 % 2 ^ 8) <<< (18 - 8)))
      ∷ ((in_buf 11 >>> 8) % 2 ^ 18)
      ∷ (bit_or (in_buf 11 >>> 26) ((in_buf 12 % 2 ^ 12) <<< (18 - 12)))
      ∷ ((in_buf 12 >>> 12) % 2 ^ 18)
      ∷ (bit_or (in_buf 12 >>> 30) ((in_buf 13 % 2 ^ 16) <<< (18 - 16)))
      ∷ (bit_or (in_buf 13 >>> 16) ((in_buf 14 % 2 ^ 2) <<< (18 - 2)))
      ∷ ((in_buf 14 >>> 2) % 2 ^ 18)
      ∷ (bit_or (in_buf 14 >>> 20) ((in_buf 15 % 2 ^ 6) <<< (18 - 6)))
      ∷ ((in_buf 15 >>> 6) % 2 ^ 18)
      ∷ (bit_or (in_buf 15 >>> 24) ((in_buf 16 % 2 ^ 10) <<< (18 - 10)))
      ∷ ((in_buf 16 >>> 10) % 2 ^ 18)
      ∷ (bit_or (in_buf 16 >>> 28) ((in_buf 17 % 2 ^ 14) <<< (18 - 14)))
      ∷ (in_buf 17 >>> 14)
      ∷ [],
  18,
)

unfoldable pub unpack19_32 : Buf → List ℕ × ℕ
unpack19_32 in_buf = (
  ((in_buf 0 >>> 0) % 2 ^ 19)
      ∷ (bit_or (in_buf 0 >>> 19) ((in_buf 1 % 2 ^ 6) <<< (19 - 6)))
      ∷ ((in_buf 1 >>> 6) % 2 ^ 19)
      ∷ (bit_or (in_buf 1 >>> 25) ((in_buf 2 % 2 ^ 12) <<< (19 - 12)))
      ∷ ((in_buf 2 >>> 12) % 2 ^ 19)
      ∷ (bit_or (in_buf 2 >>> 31) ((in_buf 3 % 2 ^ 18) <<< (19 - 18)))
      ∷ (bit_or (in_buf 3 >>> 18) ((in_buf 4 % 2 ^ 5) <<< (19 - 5)))
      ∷ ((in_buf 4 >>> 5) % 2 ^ 19)
      ∷ (bit_or (in_buf 4 >>> 24) ((in_buf 5 % 2 ^ 11) <<< (19 - 11)))
      ∷ ((in_buf 5 >>> 11) % 2 ^ 19)
      ∷ (bit_or (in_buf 5 >>> 30) ((in_buf 6 % 2 ^ 17) <<< (19 - 17)))
      ∷ (bit_or (in_buf 6 >>> 17) ((in_buf 7 % 2 ^ 4) <<< (19 - 4)))
      ∷ ((in_buf 7 >>> 4) % 2 ^ 19)
      ∷ (bit_or (in_buf 7 >>> 23) ((in_buf 8 % 2 ^ 10) <<< (19 - 10)))
      ∷ ((in_buf 8 >>> 10) % 2 ^ 19)
      ∷ (bit_or (in_buf 8 >>> 29) ((in_buf 9 % 2 ^ 16) <<< (19 - 16)))
      ∷ (bit_or (in_buf 9 >>> 16) ((in_buf 10 % 2 ^ 3) <<< (19 - 3)))
      ∷ ((in_buf 10 >>> 3) % 2 ^ 19)
      ∷ (bit_or (in_buf 10 >>> 22) ((in_buf 11 % 2 ^ 9) <<< (19 - 9)))
      ∷ ((in_buf 11 >>> 9) % 2 ^ 19)
      ∷ (bit_or (in_buf 11 >>> 28) ((in_buf 12 % 2 ^ 15) <<< (19 - 15)))
      ∷ (bit_or (in_buf 12 >>> 15) ((in_buf 13 % 2 ^ 2) <<< (19 - 2)))
      ∷ ((in_buf 13 >>> 2) % 2 ^ 19)
      ∷ (bit_or (in_buf 13 >>> 21) ((in_buf 14 % 2 ^ 8) <<< (19 - 8)))
      ∷ ((in_buf 14 >>> 8) % 2 ^ 19)
      ∷ (bit_or (in_buf 14 >>> 27) ((in_buf 15 % 2 ^ 14) <<< (19 - 14)))
      ∷ (bit_or (in_buf 15 >>> 14) ((in_buf 16 % 2 ^ 1) <<< (19 - 1)))
      ∷ ((in_buf 16 >>> 1) % 2 ^ 19)
      ∷ (bit_or (in_buf 16 >>> 20) ((in_buf 17 % 2 ^ 7) <<< (19 - 7)))
      ∷ ((in_buf 17 >>> 7) % 2 ^ 19)
      ∷ (bit_or (in_buf 17 >>> 26) ((in_buf 18 % 2 ^ 13) <<< (19 - 13)))
      ∷ (in_buf 18 >>> 13)
      ∷ [],
  19,
)

unfoldable pub unpack20_32 : Buf → List ℕ × ℕ
unpack20_32 in_buf = (
  ((in_buf 0 >>> 0) % 2 ^ 20)
      ∷ (bit_or (in_buf 0 >>> 20) ((in_buf 1 % 2 ^ 8) <<< (20 - 8)))
      ∷ ((in_buf 1 >>> 8) % 2 ^ 20)
      ∷ (bit_or (in_buf 1 >>> 28) ((in_buf 2 % 2 ^ 16) <<< (20 - 16)))
      ∷ (bit_or (in_buf 2 >>> 16) ((in_buf 3 % 2 ^ 4) <<< (20 - 4)))
      ∷ ((in_buf 3 >>> 4) % 2 ^ 20)
      ∷ (bit_or (in_buf 3 >>> 24) ((in_buf 4 % 2 ^ 12) <<< (20 - 12)))
      ∷ (in_buf 4 >>> 12)
      ∷ ((in_buf 5 >>> 0) % 2 ^ 20)
      ∷ (bit_or (in_buf 5 >>> 20) ((in_buf 6 % 2 ^ 8) <<< (20 - 8)))
      ∷ ((in_buf 6 >>> 8) % 2 ^ 20)
      ∷ (bit_or (in_buf 6 >>> 28) ((in_buf 7 % 2 ^ 16) <<< (20 - 16)))
      ∷ (bit_or (in_buf 7 >>> 16) ((in_buf 8 % 2 ^ 4) <<< (20 - 4)))
      ∷ ((in_buf 8 >>> 4) % 2 ^ 20)
      ∷ (bit_or (in_buf 8 >>> 24) ((in_buf 9 % 2 ^ 12) <<< (20 - 12)))
      ∷ (in_buf 9 >>> 12)
      ∷ ((in_buf 10 >>> 0) % 2 ^ 20)
      ∷ (bit_or (in_buf 10 >>> 20) ((in_buf 11 % 2 ^ 8) <<< (20 - 8)))
      ∷ ((in_buf 11 >>> 8) % 2 ^ 20)
      ∷ (bit_or (in_buf 11 >>> 28) ((in_buf 12 % 2 ^ 16) <<< (20 - 16)))
      ∷ (bit_or (in_buf 12 >>> 16) ((in_buf 13 % 2 ^ 4) <<< (20 - 4)))
      ∷ ((in_buf 13 >>> 4) % 2 ^ 20)
      ∷ (bit_or (in_buf 13 >>> 24) ((in_buf 14 % 2 ^ 12) <<< (20 - 12)))
      ∷ (in_buf 14 >>> 12)
      ∷ ((in_buf 15 >>> 0) % 2 ^ 20)
      ∷ (bit_or (in_buf 15 >>> 20) ((in_buf 16 % 2 ^ 8) <<< (20 - 8)))
      ∷ ((in_buf 16 >>> 8) % 2 ^ 20)
      ∷ (bit_or (in_buf 16 >>> 28) ((in_buf 17 % 2 ^ 16) <<< (20 - 16)))
      ∷ (bit_or (in_buf 17 >>> 16) ((in_buf 18 % 2 ^ 4) <<< (20 - 4)))
      ∷ ((in_buf 18 >>> 4) % 2 ^ 20)
      ∷ (bit_or (in_buf 18 >>> 24) ((in_buf 19 % 2 ^ 12) <<< (20 - 12)))
      ∷ (in_buf 19 >>> 12)
      ∷ [],
  20,
)
