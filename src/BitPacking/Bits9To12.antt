-- ===== src/BitPacking/Bits9To12.antt =====
-- src/util/bit_packing.rs: the unrolled loops for 9 to 12 bits a value.
use parquet_rs.Prelude.{ℕ, List, [], ◌∷◌, ◌%◌, ◌^◌, ◌-◌, bit_or}
use parquet_rs.BitPacking.Word.{Buf, ◌>>>◌, ◌<<<◌}

unfoldable pub unpack9_32 : Buf → List ℕ × ℕ
unpack9_32 in_buf = (
  ((in_buf 0 >>> 0) % 2 ^ 9)
      ∷ ((in_buf 0 >>> 9) % 2 ^ 9)
      ∷ ((in_buf 0 >>> 18) % 2 ^ 9)
      ∷ (bit_or (in_buf 0 >>> 27) ((in_buf 1 % 2 ^ 4) <<< (9 - 4)))
      ∷ ((in_buf 1 >>> 4) % 2 ^ 9)
      ∷ ((in_buf 1 >>> 13) % 2 ^ 9)
      ∷ ((in_buf 1 >>> 22) % 2 ^ 9)
      ∷ (bit_or (in_buf 1 >>> 31) ((in_buf 2 % 2 ^ 8) <<< (9 - 8)))
      ∷ ((in_buf 2 >>> 8) % 2 ^ 9)
      ∷ ((in_buf 2 >>> 17) % 2 ^ 9)
      ∷ (bit_or (in_buf 2 >>> 26) ((in_buf 3 % 2 ^ 3) <<< (9 - 3)))
      ∷ ((in_buf 3 >>> 3) % 2 ^ 9)
      ∷ ((in_buf 3 >>> 12) % 2 ^ 9)
      ∷ ((in_buf 3 >>> 21) % 2 ^ 9)
      ∷ (bit_or (in_buf 3 >>> 30) ((in_buf 4 % 2 ^ 7) <<< (9 - 7)))
      ∷ ((in_buf 4 >>> 7) % 2 ^ 9)
      ∷ ((in_buf 4 >>> 16) % 2 ^ 9)
      ∷ (bit_or (in_buf 4 >>> 25) ((in_buf 5 % 2 ^ 2) <<< (9 - 2)))
      ∷ ((in_buf 5 >>> 2) % 2 ^ 9)
      ∷ ((in_buf 5 >>> 11) % 2 ^ 9)
      ∷ ((in_buf 5 >>> 20) % 2 ^ 9)
      ∷ (bit_or (in_buf 5 >>> 29) ((in_buf 6 % 2 ^ 6) <<< (9 - 6)))
      ∷ ((in_buf 6 >>> 6) % 2 ^ 9)
      ∷ ((in_buf 6 >>> 15) % 2 ^ 9)
      ∷ (bit_or (in_buf 6 >>> 24) ((in_buf 7 % 2 ^ 1) <<< (9 - 1)))
      ∷ ((in_buf 7 >>> 1) % 2 ^ 9)
      ∷ ((in_buf 7 >>> 10) % 2 ^ 9)
      ∷ ((in_buf 7 >>> 19) % 2 ^ 9)
      ∷ (bit_or (in_buf 7 >>> 28) ((in_buf 8 % 2 ^ 5) <<< (9 - 5)))
      ∷ ((in_buf 8 >>> 5) % 2 ^ 9)
      ∷ ((in_buf 8 >>> 14) % 2 ^ 9)
      ∷ (in_buf 8 >>> 23)
      ∷ [],
  9,
)

unfoldable pub unpack10_32 : Buf → List ℕ × ℕ
unpack10_32 in_buf = (
  ((in_buf 0 >>> 0) % 2 ^ 10)
      ∷ ((in_buf 0 >>> 10) % 2 ^ 10)
      ∷ ((in_buf 0 >>> 20) % 2 ^ 10)
      ∷ (bit_or (in_buf 0 >>> 30) ((in_buf 1 % 2 ^ 8) <<< (10 - 8)))
      ∷ ((in_buf 1 >>> 8) % 2 ^ 10)
      ∷ ((in_buf 1 >>> 18) % 2 ^ 10)
      ∷ (bit_or (in_buf 1 >>> 28) ((in_buf 2 % 2 ^ 6) <<< (10 - 6)))
      ∷ ((in_buf 2 >>> 6) % 2 ^ 10)
      ∷ ((in_buf 2 >>> 16) % 2 ^ 10)
      ∷ (bit_or (in_buf 2 >>> 26) ((in_buf 3 % 2 ^ 4) <<< (10 - 4)))
      ∷ ((in_buf 3 >>> 4) % 2 ^ 10)
      ∷ ((in_buf 3 >>> 14) % 2 ^ 10)
      ∷ (bit_or (in_buf 3 >>> 24) ((in_buf 4 % 2 ^ 2) <<< (10 - 2)))
      ∷ ((in_buf 4 >>> 2) % 2 ^ 10)
      ∷ ((in_buf 4 >>> 12) % 2 ^ 10)
      ∷ (in_buf 4 >>> 22)
      ∷ ((in_buf 5 >>> 0) % 2 ^ 10)
      ∷ ((in_buf 5 >>> 10) % 2 ^ 10)
      ∷ ((in_buf 5 >>> 20) % 2 ^ 10)
      ∷ (bit_or (in_buf 5 >>> 30) ((in_buf 6 % 2 ^ 8) <<< (10 - 8)))
      ∷ ((in_buf 6 >>> 8) % 2 ^ 10)
      ∷ ((in_buf 6 >>> 18) % 2 ^ 10)
      ∷ (bit_or (in_buf 6 >>> 28) ((in_buf 7 % 2 ^ 6) <<< (10 - 6)))
      ∷ ((in_buf 7 >>> 6) % 2 ^ 10)
      ∷ ((in_buf 7 >>> 16) % 2 ^ 10)
      ∷ (bit_or (in_buf 7 >>> 26) ((in_buf 8 % 2 ^ 4) <<< (10 - 4)))
      ∷ ((in_buf 8 >>> 4) % 2 ^ 10)
      ∷ ((in_buf 8 >>> 14) % 2 ^ 10)
      ∷ (bit_or (in_buf 8 >>> 24) ((in_buf 9 % 2 ^ 2) <<< (10 - 2)))
      ∷ ((in_buf 9 >>> 2) % 2 ^ 10)
      ∷ ((in_buf 9 >>> 12) % 2 ^ 10)
      ∷ (in_buf 9 >>> 22)
      ∷ [],
  10,
)

unfoldable pub unpack11_32 : Buf → List ℕ × ℕ
unpack11_32 in_buf = (
  ((in_buf 0 >>> 0) % 2 ^ 11)
      ∷ ((in_buf 0 >>> 11) % 2 ^ 11)
      ∷ (bit_or (in_buf 0 >>> 22) ((in_buf 1 % 2 ^ 1) <<< (11 - 1)))
      ∷ ((in_buf 1 >>> 1) % 2 ^ 11)
      ∷ ((in_buf 1 >>> 12) % 2 ^ 11)
      ∷ (bit_or (in_buf 1 >>> 23) ((in_buf 2 % 2 ^ 2) <<< (11 - 2)))
      ∷ ((in_buf 2 >>> 2) % 2 ^ 11)
      ∷ ((in_buf 2 >>> 13) % 2 ^ 11)
      ∷ (bit_or (in_buf 2 >>> 24) ((in_buf 3 % 2 ^ 3) <<< (11 - 3)))
      ∷ ((in_buf 3 >>> 3) % 2 ^ 11)
      ∷ ((in_buf 3 >>> 14) % 2 ^ 11)
      ∷ (bit_or (in_buf 3 >>> 25) ((in_buf 4 % 2 ^ 4) <<< (11 - 4)))
      ∷ ((in_buf 4 >>> 4) % 2 ^ 11)
      ∷ ((in_buf 4 >>> 15) % 2 ^ 11)
      ∷ (bit_or (in_buf 4 >>> 26) ((in_buf 5 % 2 ^ 5) <<< (11 - 5)))
      ∷ ((in_buf 5 >>> 5) % 2 ^ 11)
      ∷ ((in_buf 5 >>> 16) % 2 ^ 11)
      ∷ (bit_or (in_buf 5 >>> 27) ((in_buf 6 % 2 ^ 6) <<< (11 - 6)))
      ∷ ((in_buf 6 >>> 6) % 2 ^ 11)
      ∷ ((in_buf 6 >>> 17) % 2 ^ 11)
      ∷ (bit_or (in_buf 6 >>> 28) ((in_buf 7 % 2 ^ 7) <<< (11 - 7)))
      ∷ ((in_buf 7 >>> 7) % 2 ^ 11)
      ∷ ((in_buf 7 >>> 18) % 2 ^ 11)
      ∷ (bit_or (in_buf 7 >>> 29) ((in_buf 8 % 2 ^ 8) <<< (11 - 8)))
      ∷ ((in_buf 8 >>> 8) % 2 ^ 11)
      ∷ ((in_buf 8 >>> 19) % 2 ^ 11)
      ∷ (bit_or (in_buf 8 >>> 30) ((in_buf 9 % 2 ^ 9) <<< (11 - 9)))
      ∷ ((in_buf 9 >>> 9) % 2 ^ 11)
      ∷ ((in_buf 9 >>> 20) % 2 ^ 11)
      ∷ (bit_or (in_buf 9 >>> 31) ((in_buf 10 % 2 ^ 10) <<< (11 - 10)))
      ∷ ((in_buf 10 >>> 10) % 2 ^ 11)
      ∷ (in_buf 10 >>> 21)
      ∷ [],
  11,
)

unfoldable pub unpack12_32 : Buf → List ℕ × ℕ
unpack12_32 in_buf = (
  ((in_buf 0 >>> 0) % 2 ^ 12)
      ∷ ((in_buf 0 >>> 12) % 2 ^ 12)
      ∷ (bit_or (in_buf 0 >>> 24) ((in_buf 1 % 2 ^ 4) <<< (12 - 4)))
      ∷ ((in_buf 1 >>> 4) % 2 ^ 12)
      ∷ ((in_buf 1 >>> 16) % 2 ^ 12)
      ∷ (bit_or (in_buf 1 >>> 28) ((in_buf 2 % 2 ^ 8) <<< (12 - 8)))
      ∷ ((in_buf 2 >>> 8) % 2 ^ 12)
      ∷ (in_buf 2 >>> 20)
      ∷ ((in_buf 3 >>> 0) % 2 ^ 12)
      ∷ ((in_buf 3 >>> 12) % 2 ^ 12)
      ∷ (bit_or (in_buf 3 >>> 24) ((in_buf 4 % 2 ^ 4) <<< (12 - 4)))
      ∷ ((in_buf 4 >>> 4) % 2 ^ 12)
      ∷ ((in_buf 4 >>> 16) % 2 ^ 12)
      ∷ (bit_or (in_buf 4 >>> 28) ((in_buf 5 % 2 ^ 8) <<< (12 - 8)))
      ∷ ((in_buf 5 >>> 8) % 2 ^ 12)
      ∷ (in_buf 5 >>> 20)
      ∷ ((in_buf 6 >>> 0) % 2 ^ 12)
      ∷ ((in_buf 6 >>> 12) % 2 ^ 12)
      ∷ (bit_or (in_buf 6 >>> 24) ((in_buf 7 % 2 ^ 4) <<< (12 - 4)))
      ∷ ((in_buf 7 >>> 4) % 2 ^ 12)
      ∷ ((in_buf 7 >>> 16) % 2 ^ 12)
      ∷ (bit_or (in_buf 7 >>> 28) ((in_buf 8 % 2 ^ 8) <<< (12 - 8)))
      ∷ ((in_buf 8 >>> 8) % 2 ^ 12)
      ∷ (in_buf 8 >>> 20)
      ∷ ((in_buf 9 >>> 0) % 2 ^ 12)
      ∷ ((in_buf 9 >>> 12) % 2 ^ 12)
      ∷ (bit_or (in_buf 9 >>> 24) ((in_buf 10 % 2 ^ 4) <<< (12 - 4)))
      ∷ ((in_buf 10 >>> 4) % 2 ^ 12)
      ∷ ((in_buf 10 >>> 16) % 2 ^ 12)
      ∷ (bit_or (in_buf 10 >>> 28) ((in_buf 11 % 2 ^ 8) <<< (12 - 8)))
      ∷ ((in_buf 11 >>> 8) % 2 ^ 12)
      ∷ (in_buf 11 >>> 20)
      ∷ [],
  12,
)
