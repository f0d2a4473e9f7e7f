-- ===== src/BitPacking/Bits13To16.antt =====
-- src/util/bit_packing.rs: the unrolled loops for 13 to 16 bits a value.
use parquet_rs.Prelude.{ℕ, List, [], ◌∷◌, ◌%◌, ◌^◌, ◌-◌, bit_or}
use parquet_rs.BitPacking.Word.{Buf, ◌>>>◌, ◌<<<◌}

unfoldable pub unpack13_32 : Buf → List ℕ × ℕ
unpack13_32 in_buf = (
  ((in_buf 0 >>> 0) % 2 ^ 13)
      ∷ ((in_buf 0 >>> 13) % 2 ^ 13)
      ∷ (bit_or (in_buf 0 >>> 26) ((in_buf 1 % 2 ^ 7) <<< (13 - 7)))
      ∷ ((in_buf 1 >>> 7) % 2 ^ 13)
      ∷ (bit_or (in_buf 1 >>> 20) ((in_buf 2 % 2 ^ 1) <<< (13 - 1)))
      ∷ ((in_buf 2 >>> 1) % 2 ^ 13)
      ∷ ((in_buf 2 >>> 14) % 2 ^ 13)
      ∷ (bit_or (in_buf 2 >>> 27) ((in_buf 3 % 2 ^ 8) <<< (13 - 8)))
      ∷ ((in_buf 3 >>> 8) % 2 ^ 13)
      ∷ (bit_or (in_buf 3 >>> 21) ((in_buf 4 % 2 ^ 2) <<< (13 - 2)))
      ∷ ((in_buf 4 >>> 2) % 2 ^ 13)
      ∷ ((in_buf 4 >>> 15) % 2 ^ 13)
      ∷ (bit_or (in_buf 4 >>> 28) ((in_buf 5 % 2 ^ 9) <<< (13 - 9)))
      ∷ ((in_buf 5 >>> 9) % 2 ^ 13)
      ∷ (bit_or (in_buf 5 >>> 22) ((in_buf 6 % 2 ^ 3) <<< (13 - 3)))
      ∷ ((in_buf 6 >>> 3) % 2 ^ 13)
      ∷ ((in_buf 6 >>> 16) % 2 ^ 13)
      ∷ (bit_or (in_buf 6 >>> 29) ((in_buf 7 % 2 ^ 10) <<< (13 - 10)))
      ∷ ((in_buf 7 >>> 10) % 2 ^ 13)
      ∷ (bit_or (in_buf 7 >>> 23) ((in_buf 8 % 2 ^ 4) <<< (13 - 4)))
      ∷ ((in_buf 8 >>> 4) % 2 ^ 13)
      ∷ ((in_buf 8 >>> 17) % 2 ^ 13)
      ∷ (bit_or (in_buf 8 >>> 30) ((in_buf 9 % 2 ^ 11) <<< (13 - 11)))
      ∷ ((in_buf 9 >>> 11) % 2 ^ 13)
      ∷ (bit_or (in_buf 9 >>> 24) ((in_buf 10 % 2 ^ 5) <<< (13 - 5)))
      ∷ ((in_buf 10 >>> 5) % 2 ^ 13)
      ∷ ((in_buf 10 >>> 18) % 2 ^ 13)
      ∷ (bit_or (in_buf 10 >>> 31) ((in_buf 11 % 2 ^ 12) <<< (13 - 12)))
      ∷ ((in_buf 11 >>> 12) % 2 ^ 13)
      ∷ (bit_or (in_buf 11 >>> 25) ((in_buf 12 % 2 ^ 6) <<< (13 - 6)))
      ∷ ((in_buf 12 >>> 6) % 2 ^ 13)
      ∷ (in_buf 12 >>> 19)
      ∷ [],
  13,
)

unfoldable pub unpack14_32 : Buf → List ℕ × ℕ
unpack14_32 in_buf = (
  ((in_buf 0 >>> 0) % 2 ^ 14)
      ∷ ((in_buf 0 >>> 14) % 2 ^ 14)
      ∷ (bit_or (in_buf 0 >>> 28) ((in_buf 1 % 2 ^ 10) <<< (14 - 10)))
      ∷ ((in_buf 1 >>> 10) % 2 ^ 14)
      ∷ (bit_or (in_buf 1 >>> 24) ((in_buf 2 % 2 ^ 6) <<< (14 - 6)))
      ∷ ((in_buf 2 >>> 6) % 2 ^ 14)
      ∷ (bit_or (in_buf 2 >>> 20) ((in_buf 3 % 2 ^ 2) <<< (14 - 2)))
      ∷ ((in_buf 3 >>> 2) % 2 ^ 14)
      ∷ ((in_buf 3 >>> 16) % 2 ^ 14)
      ∷ (bit_or (in_buf 3 >>> 30) ((in_buf 4 % 2 ^ 12) <<< (14 - 12)))
      ∷ ((in_buf 4 >>> 12) % 2 ^ 14)
      ∷ (bit_or (in_buf 4 >>> 26) ((in_buf 5 % 2 ^ 8) <<< (14 - 8)))
      ∷ ((in_buf 5 >>> 8) % 2 ^ 14)
      ∷ (bit_or (in_buf 5 >>> 22) ((in_buf 6 % 2 ^ 4) <<< (14 - 4)))
      ∷ ((in_buf 6 >>> 4) % 2 ^ 14)
      ∷ (in_buf 6 >>> 18)
      ∷ ((in_buf 7 >>> 0) % 2 ^ 14)
      ∷ ((in_buf 7 >>> 14) % 2 ^ 14)
      ∷ (bit_or (in_buf 7 >>> 28) ((in_buf 8 % 2 ^ 10) <<< (14 - 10)))
      ∷ ((in_buf 8 >>> 10) % 2 ^ 14)
      ∷ (bit_or (in_buf 8 >>> 24) ((in_buf 9 % 2 ^ 6) <<< (14 - 6)))
      ∷ ((in_buf 9 >>> 6) % 2 ^ 14)
      ∷ (bit_or (in_buf 9 >>> 20) ((in_buf 10 % 2 ^ 2) <<< (14 - 2)))
      ∷ ((in_buf 10 >>> 2) % 2 ^ 14)
      ∷ ((in_buf 10 >>> 16) % 2 ^ 14)
      ∷ (bit_or (in_buf 10 >>> 30) ((in_buf 11 % 2 ^ 12) <<< (14 - 12)))
      ∷ ((in_buf 11 >>> 12) % 2 ^ 14)
      ∷ (bit_or (in_buf 11 >>> 26) ((in_buf 12 % 2 ^ 8) <<< (14 - 8)))
      ∷ ((in_buf 12 >>> 8) % 2 ^ 14)
      ∷ (bit_or (in_buf 12 >>> 22) ((in_buf 13 % 2 ^ 4) <<< (14 - 4)))
      ∷ ((in_buf 13 >>> 4) % 2 ^ 14)
      ∷ (in_buf 13 >>> 18)
      ∷ [],
  14,
)

unfoldable pub unpack15_32 : Buf → List ℕ × ℕ
unpack15_32 in_buf = (
  ((in_buf 0 >>> 0) % 2 ^ 15)
      ∷ ((in_buf 0 >>> 15) % 2 ^ 15)
      ∷ (bit_or (in_buf 0 >>> 30) ((in_buf 1 % 2 ^ 13) <<< (15 - 13)))
      ∷ ((in_buf 1 >>> 13) % 2 ^ 15)
      ∷ (bit_or (in_buf 1 >>> 28) ((in_buf 2 % 2 ^ 11) <<< (15 - 11)))
      ∷ ((in_buf 2 >>> 11) % 2 ^ 15)
      ∷ (bit_or (in_buf 2 >>> 26) ((in_buf 3 % 2 ^ 9) <<< (15 - 9)))
      ∷ ((in_buf 3 >>> 9) % 2 ^ 15)
      ∷ (bit_or (in_buf 3 >>> 24) ((in_buf 4 % 2 ^ 7) <<< (15 - 7)))
      ∷ ((in_buf 4 >>> 7) % 2 ^ 15)
      ∷ (bit_or (in_buf 4 >>> 22) ((in_buf 5 % 2 ^ 5) <<< (15 - 5)))
      ∷ ((in_buf 5 >>> 5) % 2 ^ 15)
      ∷ (bit_or (in_buf 5 >>> 20) ((in_buf 6 % 2 ^ 3) <<< (15 - 3)))
      ∷ ((in_buf 6 >>> 3) % 2 ^ 15)
      ∷ (bit_or (in_buf 6 >>> 18) ((in_buf 7 % 2 ^ 1) <<< (15 - 1)))
      ∷ ((in_buf 7 >>> 1) % 2 ^ 15)
      ∷ ((in_buf 7 >>> 16) % 2 ^ 15)
      ∷ (bit_or (in_buf 7 >>> 31) ((in_buf 8 % 2 ^ 14) <<< (15 - 14)))
      ∷ ((in_buf 8 >>> 14) % 2 ^ 15)
      ∷ (bit_or (in_buf 8 >>> 29) ((in_buf 9 % 2 ^ 12) <<< (15 - 12)))
      ∷ ((in_buf 9 >>> 12) % 2 ^ 15)
      ∷ (bit_or (in_buf 9 >>> 27) ((in_buf 10 % 2 ^ 10) <<< (15 - 10)))
      ∷ ((in_buf 10 >>> 10) % 2 ^ 15)
      ∷ (bit_or (in_buf 10 >>> 25) ((in_buf 11 % 2 ^ 8) <<< (15 - 8)))
      ∷ ((in_buf 11 >>> 8) % 2 ^ 15)
      ∷ (bit_or (in_buf 11 >>> 23) ((in_buf 12 % 2 ^ 6) <<< (15 - 6)))
      ∷ ((in_buf 12 >>> 6) % 2 ^ 15)
      ∷ (bit_or (in_buf 12 >>> 21) ((in_buf 13 % 2 ^ 4) <<< (15 - 4)))
      ∷ ((in_buf 13 >>> 4) % 2 ^ 15)
      ∷ (bit_or (in_buf 13 >>> 19) ((in_buf 14 % 2 ^ 2) <<< (15 - 2)))
      ∷ ((in_buf 14 >>> 2) % 2 ^ 15)
      ∷ (in_buf 14 >>> 17)
      ∷ [],
  15,
)

unfoldable pub unpack16_32 : Buf → List ℕ × ℕ
unpack16_32 in_buf = (
  ((in_buf 0 >>> 0) % 2 ^ 16)
      ∷ (in_buf 0 >>> 16)
      ∷ ((in_buf 1 >>> 0) % 2 ^ 16)
      ∷ (in_buf 1 >>> 16)
      ∷ ((in_buf 2 >>> 0) % 2 ^ 16)
      ∷ (in_buf 2 >>> 16)
      ∷ ((in_buf 3 >>> 0) % 2 ^ 16)
      ∷ (in_buf 3 >>> 16)
      ∷ ((in_buf 4 >>> 0) % 2 ^ 16)
      ∷ (in_buf 4 >>> 16)
      ∷ ((in_buf 5 >>> 0) % 2 ^ 16)
      ∷ (in_buf 5 >>> 16)
      ∷ ((in_buf 6 >>> 0) % 2 ^ 16)
      ∷ (in_buf 6 >>> 16)
      ∷ ((in_buf 7 >>> 0) % 2 ^ 16)
      ∷ (in_buf 7 >>> 16)
      ∷ ((in_buf 8 >>> 0) % 2 ^ 16)
      ∷ (in_buf 8 >>> 16)
      ∷ ((in_buf 9 >>> 0) % 2 ^ 16)
      ∷ (in_buf 9 >>> 16)
      ∷ ((in_buf 10 >>> 0) % 2 ^ 16)
      ∷ (in_buf 10 >>> 16)
      ∷ ((in_buf 11 >>> 0) % 2 ^ 16)
      ∷ (in_buf 11 >>> 16)
      ∷ ((in_buf 12 >>> 0) % 2 ^ 16)
      ∷ (in_buf 12 >>> 16)
      ∷ ((in_buf 13 >>> 0) % 2 ^ 16)
      ∷ (in_buf 13 >>> 16)
      ∷ ((in_buf 14 >>> 0) % 2 ^ 16)
      ∷ (in_buf 14 >>> 16)
      ∷ ((in_buf 15 >>> 0) % 2 ^ 16)
      ∷ (in_buf 15 >>> 16)
      ∷ [],
  16,
)
