-- ===== src/BitPacking/Bits21To24.antt =====
-- src/util/bit_packing.rs: the unrolled loops for 21 to 24 bits a value.
use parquet_rs.Prelude.{ℕ, List, [], ◌∷◌, ◌%◌, ◌^◌, ◌-◌, bit_or}
use parquet_rs.BitPacking.Word.{Buf, ◌>>>◌, ◌<<<◌}

unfoldable pub unpack21_32 : Buf → List ℕ × ℕ
unpack21_32 in_buf = (
  ((in_buf 0 >>> 0) % 2 ^ 21)
      ∷ (bit_or (in_buf 0 >>> 21) ((in_buf 1 % 2 ^ 10) <<< (21 - 10)))
      ∷ ((in_buf 1 >>> 10) % 2 ^ 21)
      ∷ (bit_or (in_buf 1 >>> 31) ((in_buf 2 % 2 ^ 20) <<< (21 - 20)))
      ∷ (bit_or (in_buf 2 >>> 20) ((in_buf 3 % 2 ^ 9) <<< (21 - 9)))
      ∷ ((in_buf 3 >>> 9) % 2 ^ 21)
      ∷ (bit_or (in_buf 3 >>> 30) ((in_buf 4 % 2 ^ 19) <<< (21 - 19)))
      ∷ (bit_or (in_buf 4 >>> 19) ((in_buf 5 % 2 ^ 8) <<< (21 - 8)))
      ∷ ((in_buf 5 >>> 8) % 2 ^ 21)
      ∷ (bit_or (in_buf 5 >>> 29) ((in_buf 6 % 2 ^ 18) <<< (21 - 18)))
      ∷ (bit_or (in_buf 6 >>> 18) ((in_buf 7 % 2 ^ 7) <<< (21 - 7)))
      ∷ ((in_buf 7 >>> 7) % 2 ^ 21)
      ∷ (bit_or (in_buf 7 >>> 28) ((in_buf 8 % 2 ^ 17) <<< (21 - 17)))
      ∷ (bit_or (in_buf 8 >>> 17) ((in_buf 9 % 2 ^ 6) <<< (21 - 6)))
      ∷ ((in_buf 9 >>> 6) % 2 ^ 21)
      ∷ (bit_or (in_buf 9 >>> 27) ((in_buf 10 % 2 ^ 16) <<< (21 - 16)))
      ∷ (bit_or (in_buf 10 >>> 16) ((in_buf 11 % 2 ^ 5) <<< (21 - 5)))
      ∷ ((in_buf 11 >>> 5) % 2 ^ 21)
      ∷ (bit_or (in_buf 11 >>> 26) ((in_buf 12 % 2 ^ 15) <<< (21 - 15)))
      ∷ (bit_or (in_buf 12 >>> 15) ((in_buf 13 % 2 ^ 4) <<< (21 - 4)))
      ∷ ((in_buf 13 >>> 4) % 2 ^ 21)
      ∷ (bit_or (in_buf 13 >>> 25) ((in_buf 14 % 2 ^ 14) <<< (21 - 14)))
      ∷ (bit_or (in_buf 14 >>> 14) ((in_buf 15 % 2 ^ 3) <<< (21 - 3)))
      ∷ ((in_buf 15 >>> 3) % 2 ^ 21)
      ∷ (bit_or (in_buf 15 >>> 24) ((in_buf 16 % 2 ^ 13) <<< (21 - 13)))
      ∷ (bit_or (in_buf 16 >>> 13) ((in_buf 17 % 2 ^ 2) <<< (21 - 2)))
      ∷ ((in_buf 17 >>> 2) % 2 ^ 21)
      ∷ (bit_or (in_buf 17 >>> 23) ((in_buf 18 % 2 ^ 12) <<< (21 - 12)))
      ∷ (bit_or (in_buf 18 >>> 12) ((in_buf 19 % 2 ^ 1) <<< (21 - 1)))
      ∷ ((in_buf 19 >>> 1) % 2 ^ 21)
      ∷ (bit_or (in_buf 19 >>> 22) ((in_buf 20 % 2 ^ 11) <<< (21 - 11)))
      ∷ (in_buf 20 >>> 11)
      ∷ [],
  21,
)

unfoldable pub unpack22_32 : Buf → List ℕ × ℕ
unpack22_32 in_buf = (
  ((in_buf 0 >>> 0) % 2 ^ 22)
      ∷ (bit_or (in_buf 0 >>> 22) ((in_buf 1 % 2 ^ 12) <<< (22 - 12)))
      ∷ (bit_or (in_buf 1 >>> 12) ((in_buf 2 % 2 ^ 2) <<< (22 - 2)))
      ∷ ((in_buf 2 >>> 2) % 2 ^ 22)
      ∷ (bit_or (in_buf 2 >>> 24) ((in_buf 3 % 2 ^ 14) <<< (22 - 14)))
      ∷ (bit_or (in_buf 3 >>> 14) ((in_buf 4 % 2 ^ 4) <<< (22 - 4)))
      ∷ ((in_buf 4 >>> 4) % 2 ^ 22)
      ∷ (bit_or (in_buf 4 >>> 26) ((in_buf 5 % 2 ^ 16) <<< (22 - 16)))
      ∷ (bit_or (in_buf 5 >>> 16) ((in_buf 6 % 2 ^ 6) <<< (22 - 6)))
      ∷ ((in_buf 6 >>> 6) % 2 ^ 22)
      ∷ (bit_or (in_buf 6 >>> 28) ((in_buf 7 % 2 ^ 18) <<< (22 - 18)))
      ∷ (bit_or (in_buf 7 >>> 18) ((in_buf 8 % 2 ^ 8) <<< (22 - 8)))
      ∷ ((in_buf 8 >>> 8) % 2 ^ 22)
      ∷ (bit_or (in_buf 8 >>> 30) ((in_buf 9 % 2 ^ 20) <<< (22 - 20)))
      ∷ (bit_or (in_buf 9 >>> 20) ((in_buf 10 % 2 ^ 10) <<< (22 - 10)))
      ∷ (in_buf 10 >>> 10)
      ∷ ((in_buf 11 >>> 0) % 2 ^ 22)
      ∷ (bit_or (in_buf 11 >>> 22) ((in_buf 12 % 2 ^ 12) <<< (22 - 12)))
      ∷ (bit_or (in_buf 12 >>> 12) ((in_buf 13 % 2 ^ 2) <<< (22 - 2)))
      ∷ ((in_buf 13 >>> 2) % 2 ^ 22)
      ∷ (bit_or (in_buf 13 >>> 24) ((in_buf 14 % 2 ^ 14) <<< (22 - 14)))
      ∷ (bit_or (in_buf 14 >>> 14) ((in_buf 15 % 2 ^ 4) <<< (22 - 4)))
      ∷ ((in_buf 15 >>> 4) % 2 ^ 22)
      ∷ (bit_or (in_buf 15 >>> 26) ((in_buf 16 % 2 ^ 16) <<< (22 - 16)))
      ∷ (bit_or (in_buf 16 >>> 16) ((in_buf 17 % 2 ^ 6) <<< (22 - 6)))
      ∷ ((in_buf 17 >>> 6) % 2 ^ 22)
      ∷ (bit_or (in_buf 17 >>> 28) ((in_buf 18 % 2 ^ 18) <<< (22 - 18)))
      ∷ (bit_or (in_buf 18 >>> 18) ((in_buf 19 % 2 ^ 8) <<< (22 - 8)))
      ∷ ((in_buf 19 >>> 8) % 2 ^ 22)
      ∷ (bit_or (in_buf 19 >>> 30) ((in_buf 20 % 2 ^ 20) <<< (22 - 20)))
      ∷ (bit_or (in_buf 20 >>> 20) ((in_buf 21 % 2 ^ 10) <<< (22 - 10)))
      ∷ (in_buf 21 >>> 10)
      ∷ [],
  22,
)

unfoldable pub unpack23_32 : Buf → List ℕ × ℕ
unpack23_32 in_buf = (
  ((in_buf 0 >>> 0) % 2 ^ 23)
      ∷ (bit_or (in_buf 0 >>> 23) ((in_buf 1 % 2 ^ 14) <<< (23 - 14)))
      ∷ (bit_or (in_buf 1 >>> 14) ((in_buf 2 % 2 ^ 5) <<< (23 - 5)))
      ∷ ((in_buf 2 >>> 5) % 2 ^ 23)
      ∷ (bit_or (in_buf 2 >>> 28) ((in_buf 3 % 2 ^ 19) <<< (23 - 19)))
      ∷ (bit_or (in_buf 3 >>> 19) ((in_buf 4 % 2 ^ 10) <<< (23 - 10)))
      ∷ (bit_or (in_buf 4 >>> 10) ((in_buf 5 % 2 ^ 1) <<< (23 - 1)))
      ∷ ((in_buf 5 >>> 1) % 2 ^ 23)
      ∷ (bit_or (in_buf 5 >>> 24) ((in_buf 6 % 2 ^ 15) <<< (23 - 15)))
      ∷ (bit_or (in_buf 6 >>> 15) ((in_buf 7 % 2 ^ 6) <<< (23 - 6)))
      ∷ ((in_buf 7 >>> 6) % 2 ^ 23)
      ∷ (bit_or (in_buf 7 >>> 29) ((in_buf 8 % 2 ^ 20) <<< (23 - 20)))
      ∷ (bit_or (in_buf 8 >>> 20) ((in_buf 9 % 2 ^ 11) <<< (23 - 11)))
      ∷ (bit_or (in_buf 9 >>> 11) ((in_buf 10 % 2 ^ 2) <<< (23 - 2)))
      ∷ ((in_buf 10 >>> 2) % 2 ^ 23)
      ∷ (bit_or (in_buf 10 >>> 25) ((in_buf 11 % 2 ^ 16) <<< (23 - 16)))
      ∷ (bit_or (in_buf 11 >>> 16) ((in_buf 12 % 2 ^ 7) <<< (23 - 7)))
      ∷ ((in_buf 12 >>> 7) % 2 ^ 23)
      ∷ (bit_or (in_buf 12 >>> 30) ((in_buf 13 % 2 ^ 21) <<< (23 - 21)))
      ∷ (bit_or (in_buf 13 >>> 21) ((in_buf 14 % 2 ^ 12) <<< (23 - 12)))
      ∷ (bit_or (in_buf 14 >>> 12) ((in_buf 15 % 2 ^ 3) <<< (23 - 3)))
      ∷ ((in_buf 15 >>> 3) % 2 ^ 23)
      ∷ (bit_or (in_buf 15 >>> 26) ((in_buf 16 % 2 ^ 17) <<< (23 - 17)))
      ∷ (bit_or (in_buf 16 >>> 17) ((in_buf 17 % 2 ^ 8) <<< (23 - 8)))
      ∷ ((in_buf 17 >>> 8) % 2 ^ 23)
      ∷ (bit_or (in_buf 17 >>> 31) ((in_buf 18 % 2 ^ 22) <<< (23 - 22)))
      ∷ (bit_or (in_buf 18 >>> 22) ((in_buf 19 % 2 ^ 13) <<< (23 - 13)))
      ∷ (bit_or (in_buf 19 >>> 13) ((in_buf 20 % 2 ^ 4) <<< (23 - 4)))
      ∷ ((in_buf 20 >>> 4) % 2 ^ 23)
      ∷ (bit_or (in_buf 20 >>> 27) ((in_buf 21 % 2 ^ 18) <<< (23 - 18)))
      ∷ (bit_or (in_buf 21 >>> 18) ((in_buf 22 % 2 ^ 9) <<< (23 - 9)))
      ∷ (in_buf 22 >>> 9)
      ∷ [],
  23,
)

unfoldable pub unpack24_32 : Buf → List ℕ × ℕ
unpack24_32 in_buf = (
  ((in_buf 0 >>> 0) % 2 ^ 24)
      ∷ (bit_or (in_buf 0 >>> 24) ((in_buf 1 % 2 ^ 16) <<< (24 - 16)))
      ∷ (bit_or (in_buf 1 >>> 16) ((in_buf 2 % 2 ^ 8) <<< (24 - 8)))
      ∷ (in_buf 2 >>> 8)
      ∷ ((in_buf 3 >>> 0) % 2 ^ 24)
      ∷ (bit_or (in_buf 3 >>> 24) ((in_buf 4 % 2 ^ 16) <<< (24 - 16)))
      ∷ (bit_or (in_buf 4 >>> 16) ((in_buf 5 % 2 ^ 8) <<< (24 - 8)))
      ∷ (in_buf 5 >>> 8)
      ∷ ((in_buf 6 >>> 0) % 2 ^ 24)
      ∷ (bit_or (in_buf 6 >>> 24) ((in_buf 7 % 2 ^ 16) <<< (24 - 16)))
      ∷ (bit_or (in_buf 7 >>> 16) ((in_buf 8 % 2 ^ 8) <<< (24 - 8)))
      ∷ (in_buf 8 >>> 8)
      ∷ ((in_buf 9 >>> 0) % 2 ^ 24)
      ∷ (bit_or (in_buf 9 >>> 24) ((in_buf 10 % 2 ^ 16) <<< (24 - 16)))
      ∷ (bit_or (in_buf 10 >>> 16) ((in_buf 11 % 2 ^ 8) <<< (24 - 8)))
      ∷ (in_buf 11 >>> 8)
      ∷ ((in_buf 12 >>> 0) % 2 ^ 24)
      ∷ (bit_or (in_buf 12 >>> 24) ((in_buf 13 % 2 ^ 16) <<< (24 - 16)))
      ∷ (bit_or (in_buf 13 >>> 16) ((in_buf 14 % 2 ^ 8) <<< (24 - 8)))
      ∷ (in_buf 14 >>> 8)
      ∷ ((in_buf 15 >>> 0) % 2 ^ 24)
      ∷ (bit_or (in_buf 15 >>> 24) ((in_buf 16 % 2 ^ 16) <<< (24 - 16)))
      ∷ (bit_or (in_buf 16 >>> 16) ((in_buf 17 % 2 ^ 8) <<< (24 - 8)))
      ∷ (in_buf 17 >>> 8)
      ∷ ((in_buf 18 >>> 0) % 2 ^ 24)
      ∷ (bit_or (in_buf 18 >>> 24) ((in_buf 19 % 2 ^ 16) <<< (24 - 16)))
      ∷ (bit_or (in_buf 19 >>> 16) ((in_buf 20 % 2 ^ 8) <<< (24 - 8)))
      ∷ (in_buf 20 >>> 8)
      ∷ ((in_buf 21 >>> 0) % 2 ^ 24)
      ∷ (bit_or (in_buf 21 >>> 24) ((in_buf 22 % 2 ^ 16) <<< (24 - 16)))
      ∷ (bit_or (in_buf 22 >>> 16) ((in_buf 23 % 2 ^ 8) <<< (24 - 8)))
      ∷ (in_buf 23 >>> 8)
      ∷ [],
  24,
)
