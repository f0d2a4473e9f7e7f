-- ===== src/BitPacking/Bits5To8.antt =====
-- src/util/bit_packing.rs: the unrolled loops for 5 to 8 bits a value.
use parquet_rs.Prelude.{ℕ, List, [], ◌∷◌, ◌%◌, ◌^◌, ◌-◌, bit_or}
use parquet_rs.BitPacking.Word.{Buf, ◌>>>◌, ◌<<<◌}

unfoldable pub unpack5_32 : Buf → List ℕ × ℕ
unpack5_32 in_buf = (
  ((in_buf 0 >>> 0) % 2 ^ 5)
      ∷ ((in_buf 0 >>> 5) % 2 ^ 5)
      ∷ ((in_buf 0 >>> 10) % 2 ^ 5)
      ∷ ((in_buf 0 >>> 15) % 2 ^ 5)
      ∷ ((in_buf 0 >>> 20) % 2 ^ 5)
      ∷ ((in_buf 0 >>> 25) % 2 ^ 5)
      ∷ (bit_or (in_buf 0 >>> 30) ((in_buf 1 % 2 ^ 3) <<< (5 - 3)))
      ∷ ((in_buf 1 >>> 3) % 2 ^ 5)
      ∷ ((in_buf 1 >>> 8) % 2 ^ 5)
      ∷ ((in_buf 1 >>> 13) % 2 ^ 5)
      ∷ ((in_buf 1 >>> 18) % 2 ^ 5)
      ∷ ((in_buf 1 >>> 23) % 2 ^ 5)
      ∷ (bit_or ((in_buf 1 >>> 28) % 2 ^ 5) ((in_buf 2 % 2 ^ 1) <<< (5 - 1)))
      ∷ ((in_buf 2 >>> 1) % 2 ^ 5)
      ∷ ((in_buf 2 >>> 6) % 2 ^ 5)
      ∷ ((in_buf 2 >>> 11) % 2 ^ 5)
      ∷ ((in_buf 2 >>> 16) % 2 ^ 5)
      ∷ ((in_buf 2 >>> 21) % 2 ^ 5)
      ∷ ((in_buf 2 >>> 26) % 2 ^ 5)
      ∷ (bit_or (in_buf 2 >>> 31) ((in_buf 3 % 2 ^ 4) <<< (5 - 4)))
      ∷ ((in_buf 3 >>> 4) % 2 ^ 5)
      ∷ ((in_buf 3 >>> 9) % 2 ^ 5)
      ∷ ((in_buf 3 >>> 14) % 2 ^ 5)
      ∷ ((in_buf 3 >>> 19) % 2 ^ 5)
      ∷ ((in_buf 3 >>> 24) % 2 ^ 5)
      ∷ (bit_or (in_buf 3 >>> 29) ((in_buf 4 % 2 ^ 2) <<< (5 - 2)))
      ∷ ((in_buf 4 >>> 2) % 2 ^ 5)
      ∷ ((in_buf 4 >>> 7) % 2 ^ 5)
      ∷ ((in_buf 4 >>> 12) % 2 ^ 5)
      ∷ ((in_buf 4 >>> 17) % 2 ^ 5)
      ∷ ((in_buf 4 >>> 22) % 2 ^ 5)
      ∷ (in_buf 4 >>> 27)
      ∷ [],
  5,
)

unfoldable pub unpack6_32 : Buf → List ℕ × ℕ
unpack6_32 in_buf = (
  ((in_buf 0 >>> 0) % 2 ^ 6)
      ∷ ((in_buf 0 >>> 6) % 2 ^ 6)
      ∷ ((in_buf 0 >>> 12) % 2 ^ 6)
      ∷ ((in_buf 0 >>> 18) % 2 ^ 6)
      ∷ ((in_buf 0 >>> 24) % 2 ^ 6)
      ∷ (bit_or (in_buf 0 >>> 30) ((in_buf 1 % 2 ^ 4) <<< (6 - 4)))
      ∷ ((in_buf 1 >>> 4) % 2 ^ 6)
      ∷ ((in_buf 1 >>> 10) % 2 ^ 6)
      ∷ ((in_buf 1 >>> 16) % 2 ^ 6)
      ∷ ((in_buf 1 >>> 22) % 2 ^ 6)
      ∷ (bit_or (in_buf 1 >>> 28) ((in_buf 2 % 2 ^ 2) <<< (6 - 2)))
      ∷ ((in_buf 2 >>> 2) % 2 ^ 6)
      ∷ ((in_buf 2 >>> 8) % 2 ^ 6)
      ∷ ((in_buf 2 >>> 14) % 2 ^ 6)
      ∷ ((in_buf 2 >>> 20) % 2 ^ 6)
      ∷ (in_buf 2 >>> 26)
      ∷ ((in_buf 3 >>> 0) % 2 ^ 6)
      ∷ ((in_buf 3 >>> 6) % 2 ^ 6)
      ∷ ((in_buf 3 >>> 12) % 2 ^ 6)
      ∷ ((in_buf 3 >>> 18) % 2 ^ 6)
      ∷ ((in_buf 3 >>> 24) % 2 ^ 6)
      ∷ (bit_or (in_buf 3 >>> 30) ((in_buf 4 % 2 ^ 4) <<< (6 - 4)))
      ∷ ((in_buf 4 >>> 4) % 2 ^ 6)
      ∷ ((in_buf 4 >>> 10) % 2 ^ 6)
      ∷ ((in_buf 4 >>> 16) % 2 ^ 6)
      ∷ ((in_buf 4 >>> 22) % 2 ^ 6)
      ∷ (bit_or (in_buf 4 >>> 28) ((in_buf 5 % 2 ^ 2) <<< (6 - 2)))
      ∷ ((in_buf 5 >>> 2) % 2 ^ 6)
      ∷ ((in_buf 5 >>> 8) % 2 ^ 6)
      ∷ ((in_buf 5 >>> 14) % 2 ^ 6)
      ∷ ((in_buf 5 >>> 20) % 2 ^ 6)
      ∷ (in_buf 5 >>> 26)
      ∷ [],
  6,
)

unfoldable pub unpack7_32 : Buf → List ℕ × ℕ
unpack7_32 in_buf = (
  ((in_buf 0 >>> 0) % 2 ^ 7)
      ∷ ((in_buf 0 >>> 7) % 2 ^ 7)
      ∷ ((in_buf 0 >>> 14) % 2 ^ 7)
      ∷ ((in_buf 0 >>> 21) % 2 ^ 7)
      ∷ (bit_or (in_buf 0 >>> 28) ((in_buf 1 % 2 ^ 3) <<< (7 - 3)))
      ∷ ((in_buf 1 >>> 3) % 2 ^ 7)
      ∷ ((in_buf 1 >>> 10) % 2 ^ 7)
      ∷ ((in_buf 1 >>> 17) % 2 ^ 7)
      ∷ ((in_buf 1 >>> 24) % 2 ^ 7)
      ∷ (bit_or (in_buf 1 >>> 31) ((in_buf 2 % 2 ^ 6) <<< (7 - 6)))
      ∷ ((in_buf 2 >>> 6) % 2 ^ 7)
      ∷ ((in_buf 2 >>> 13) % 2 ^ 7)
      ∷ ((in_buf 2 >>> 20) % 2 ^ 7)
      ∷ (bit_or (in_buf 2 >>> 27) ((in_buf 3 % 2 ^ 2) <<< (7 - 2)))
      ∷ ((in_buf 3 >>> 2) % 2 ^ 7)
      ∷ ((in_buf 3 >>> 9) % 2 ^ 7)
      ∷ ((in_buf 3 >>> 16) % 2 ^ 7)
      ∷ ((in_buf 3 >>> 23) % 2 ^ 7)
      ∷ (bit_or (in_buf 3 >>> 30) ((in_buf 4 % 2 ^ 5) <<< (7 - 5)))
      ∷ ((in_buf 4 >>> 5) % 2 ^ 7)
      ∷ ((in_buf 4 >>> 12) % 2 ^ 7)
      ∷ ((in_buf 4 >>> 19) % 2 ^ 7)
      ∷ (bit_or (in_buf 4 >>> 26) ((in_buf 5 % 2 ^ 1) <<< (7 - 1)))
      ∷ ((in_buf 5 >>> 1) % 2 ^ 7)
      ∷ ((in_buf 5 >>> 8) % 2 ^ 7)
      ∷ ((in_buf 5 >>> 15) % 2 ^ 7)
      ∷ ((in_buf 5 >>> 22) % 2 ^ 7)
      ∷ (bit_or (in_buf 5 >>> 29) ((in_buf 6 % 2 ^ 4) <<< (7 - 4)))
      ∷ ((in_buf 6 >>> 4) % 2 ^ 7)
      ∷ ((in_buf 6 >>> 11) % 2 ^ 7)
      ∷ ((in_buf 6 >>> 18) % 2 ^ 7)
      ∷ (in_buf 6 >>> 25)
      ∷ [],
  7,
)

unfoldable pub unpack8_32 : Buf → List ℕ × ℕ
unpack8_32 in_buf = (
  ((in_buf 0 >>> 0) % 2 ^ 8)
      ∷ ((in_buf 0 >>> 8) % 2 ^ 8)
      ∷ ((in_buf 0 >>> 16) % 2 ^ 8)
      ∷ (in_buf 0 >>> 24)
      ∷ ((in_buf 1 >>> 0) % 2 ^ 8)
      ∷ ((in_buf 1 >>> 8) % 2 ^ 8)
      ∷ ((in_buf 1 >>> 16) % 2 ^ 8)
      ∷ (in_buf 1 >>> 24)
      ∷ ((in_buf 2 >>> 0) % 2 ^ 8)
      ∷ ((in_buf 2 >>> 8) % 2 ^ 8)
      ∷ ((in_buf 2 >>> 16) % 2 ^ 8)
      ∷ (in_buf 2 >>> 24)
      ∷ ((in_buf 3 >>> 0) % 2 ^ 8)
      ∷ ((in_buf 3 >>> 8) % 2 ^ 8)
      ∷ ((in_buf 3 >>> 16) % 2 ^ 8)
      ∷ (in_buf 3 >>> 24)
      ∷ ((in_buf 4 >>> 0) % 2 ^ 8)
      ∷ ((in_buf 4 >>> 8) % 2 ^ 8)
      ∷ ((in_buf 4 >>> 16) % 2 ^ 8)
      ∷ (in_buf 4 >>> 24)
      ∷ ((in_buf 5 >>> 0) % 2 ^ 8)
      ∷ ((in_buf 5 >>> 8) % 2 ^ 8)
      ∷ ((in_buf 5 >>> 16) % 2 ^ 8)
      ∷ (in_buf 5 >>> 24)
      ∷ ((in_buf 6 >>> 0) % 2 ^ 8)
      ∷ ((in_buf 6 >>> 8) % 2 ^ 8)
      ∷ ((in_buf 6 >>> 16) % 2 ^ 8)
      ∷ (in_buf 6 >>> 24)
      ∷ ((in_buf 7 >>> 0) % 2 ^ 8)
      ∷ ((in_buf 7 >>> 8) % 2 ^ 8)
      ∷ ((in_buf 7 >>> 16) % 2 ^ 8)
      ∷ (in_buf 7 >>> 24)
      ∷ [],
  8,
)
