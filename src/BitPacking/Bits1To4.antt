-- ===== src/BitPacking/Bits1To4.antt =====
-- src/util/bit_packing.rs: the unrolled loops for 1 to 4 bits a value.
use parquet_rs.Prelude.{ℕ, List, [], ◌∷◌, ◌%◌, ◌^◌, ◌-◌, bit_and, bit_or}
use parquet_rs.BitPacking.Word.{Buf, ◌>>>◌, ◌<<<◌}

unfoldable pub unpack1_32 : Buf → List ℕ × ℕ
unpack1_32 in_buf = (
  (bit_and (in_buf 0 >>> 0) 1)
      ∷ (bit_and (in_buf 0 >>> 1) 1)
      ∷ (bit_and (in_buf 0 >>> 2) 1)
      ∷ (bit_and (in_buf 0 >>> 3) 1)
      ∷ (bit_and (in_buf 0 >>> 4) 1)
      ∷ (bit_and (in_buf 0 >>> 5) 1)
      ∷ (bit_and (in_buf 0 >>> 6) 1)
      ∷ (bit_and (in_buf 0 >>> 7) 1)
      ∷ (bit_and (in_buf 0 >>> 8) 1)
      ∷ (bit_and (in_buf 0 >>> 9) 1)
      ∷ (bit_and (in_buf 0 >>> 10) 1)
      ∷ (bit_and (in_buf 0 >>> 11) 1)
      ∷ (bit_and (in_buf 0 >>> 12) 1)
      ∷ (bit_and (in_buf 0 >>> 13) 1)
      ∷ (bit_and (in_buf 0 >>> 14) 1)
      ∷ (bit_and (in_buf 0 >>> 15) 1)
      ∷ (bit_and (in_buf 0 >>> 16) 1)
      ∷ (bit_and (in_buf 0 >>> 17) 1)
      ∷ (bit_and (in_buf 0 >>> 18) 1)
      ∷ (bit_and (in_buf 0 >>> 19) 1)
      ∷ (bit_and (in_buf 0 >>> 20) 1)
      ∷ (bit_and (in_buf 0 >>> 21) 1)
      ∷ (bit_and (in_buf 0 >>> 22) 1)
      ∷ (bit_and (in_buf 0 >>> 23) 1)
      ∷ (bit_and (in_buf 0 >>> 24) 1)
      ∷ (bit_and (in_buf 0 >>> 25) 1)
      ∷ (bit_and (in_buf 0 >>> 26) 1)
      ∷ (bit_and (in_buf 0 >>> 27) 1)
      ∷ (bit_and (in_buf 0 >>> 28) 1)
      ∷ (bit_and (in_buf 0 >>> 29) 1)
      ∷ (bit_and (in_buf 0 >>> 30) 1)
      ∷ (in_buf 0 >>> 31)
      ∷ [],
  1,
)

unfoldable pub unpack2_32 : Buf → List ℕ × ℕ
unpack2_32 in_buf = (
  ((in_buf 0 >>> 0) % 2 ^ 2)
      ∷ ((in_buf 0 >>> 2) % 2 ^ 2)
      ∷ ((in_buf 0 >>> 4) % 2 ^ 2)
      ∷ ((in_buf 0 >>> 6) % 2 ^ 2)
      ∷ ((in_buf 0 >>> 8) % 2 ^ 2)
      ∷ ((in_buf 0 >>> 10) % 2 ^ 2)
      ∷ ((in_buf 0 >>> 12) % 2 ^ 2)
      ∷ ((in_buf 0 >>> 14) % 2 ^ 2)
      ∷ ((in_buf 0 >>> 16) % 2 ^ 2)
      ∷ ((in_buf 0 >>> 18) % 2 ^ 2)
      ∷ ((in_buf 0 >>> 20) % 2 ^ 2)
      ∷ ((in_buf 0 >>> 22) % 2 ^ 2)
      ∷ ((in_buf 0 >>> 24) % 2 ^ 2)
      ∷ ((in_buf 0 >>> 26) % 2 ^ 2)
      ∷ ((in_buf 0 >>> 28) % 2 ^ 2)
      ∷ (in_buf 0 >>> 30)
      ∷ ((in_buf 1 >>> 0) % 2 ^ 2)
      ∷ ((in_buf 1 >>> 2) % 2 ^ 2)
      ∷ ((in_buf 1 >>> 4) % 2 ^ 2)
      ∷ ((in_buf 1 >>> 6) % 2 ^ 2)
      ∷ ((in_buf 1 >>> 8) % 2 ^ 2)
      ∷ ((in_buf 1 >>> 10) % 2 ^ 2)
      ∷ ((in_buf 1 >>> 12) % 2 ^ 2)
      ∷ ((in_buf 1 >>> 14) % 2 ^ 2)
      ∷ ((in_buf 1 >>> 16) % 2 ^ 2)
      ∷ ((in_buf 1 >>> 18) % 2 ^ 2)
      ∷ ((in_buf 1 >>> 20) % 2 ^ 2)
      ∷ ((in_buf 1 >>> 22) % 2 ^ 2)
      ∷ ((in_buf 1 >>> 24) % 2 ^ 2)
      ∷ ((in_buf 1 >>> 26) % 2 ^ 2)
      ∷ ((in_buf 1 >>> 28) % 2 ^ 2)
      ∷ (in_buf 1 >>> 30)
      ∷ [],
  2,
)

unfoldable pub unpack3_32 : Buf → List ℕ × ℕ
unpack3_32 in_buf = (
  ((in_buf 0 >>> 0) % 2 ^ 3)
      ∷ ((in_buf 0 >>> 3) % 2 ^ 3)
      ∷ ((in_buf 0 >>> 6) % 2 ^ 3)
      ∷ ((in_buf 0 >>> 9) % 2 ^ 3)
      ∷ ((in_buf 0 >>> 12) % 2 ^ 3)
      ∷ ((in_buf 0 >>> 15) % 2 ^ 3)
      ∷ ((in_buf 0 >>> 18) % 2 ^ 3)
      ∷ ((in_buf 0 >>> 21) % 2 ^ 3)
      ∷ ((in_buf 0 >>> 24) % 2 ^ 3)
      ∷ ((in_buf 0 >>> 27) % 2 ^ 3)
      ∷ (bit_or (in_buf 0 >>> 30) ((in_buf 1 % 2 ^ 1) <<< (3 - 1)))
      ∷ ((in_buf 1 >>> 1) % 2 ^ 3)
      ∷ ((in_buf 1 >>> 4) % 2 ^ 3)
      ∷ ((in_buf 1 >>> 7) % 2 ^ 3)
      ∷ ((in_buf 1 >>> 10) % 2 ^ 3)
      ∷ ((in_buf 1 >>> 13) % 2 ^ 3)
      ∷ ((in_buf 1 >>> 16) % 2 ^ 3)
      ∷ ((in_buf 1 >>> 19) % 2 ^ 3)
      ∷ ((in_buf 1 >>> 22) % 2 ^ 3)
      ∷ ((in_buf 1 >>> 25) % 2 ^ 3)
      ∷ ((in_buf 1 >>> 28) % 2 ^ 3)
      ∷ (bit_or (in_buf 1 >>> 31) ((in_buf 2 % 2 ^ 2) <<< (3 - 2)))
      ∷ ((in_buf 2 >>> 2) % 2 ^ 3)
      ∷ ((in_buf 2 >>> 5) % 2 ^ 3)
      ∷ ((in_buf 2 >>> 8) % 2 ^ 3)
      ∷ ((in_buf 2 >>> 11) % 2 ^ 3)
      ∷ ((in_buf 2 >>> 14) % 2 ^ 3)
      ∷ ((in_buf 2 >>> 17) % 2 ^ 3)
      ∷ ((in_buf 2 >>> 20) % 2 ^ 3)
      ∷ ((in_buf 2 >>> 23) % 2 ^ 3)
      ∷ ((in_buf 2 >>> 26) % 2 ^ 3)
      ∷ (in_buf 2 >>> 29)
      ∷ [],
  3,
)

unfoldable pub unpack4_32 : Buf → List ℕ × ℕ
unpack4_32 in_buf = (
  ((in_buf 0 >>> 0) % 2 ^ 4)
      ∷ ((in_buf 0 >>> 4) % 2 ^ 4)
      ∷ ((in_buf 0 >>> 8) % 2 ^ 4)
      ∷ ((in_buf 0 >>> 12) % 2 ^ 4)
      ∷ ((in_buf 0 >>> 16) % 2 ^ 4)
      ∷ ((in_buf 0 >>> 20) % 2 ^ 4)
      ∷ ((in_buf 0 >>> 24) % 2 ^ 4)
      ∷ ((in_buf 0 >>> 28) % 2 ^ 4)
      ∷ ((in_buf 1 >>> 0) % 2 ^ 4)
      ∷ ((in_buf 1 >>> 4) % 2 ^ 4)
      ∷ ((in_buf 1 >>> 8) % 2 ^ 4)
      ∷ ((in_buf 1 >>> 12) % 2 ^ 4)
      ∷ ((in_buf 1 >>> 16) % 2 ^ 4)
      ∷ ((in_buf 1 >>> 20) % 2 ^ 4)
      ∷ ((in_buf 1 >>> 24) % 2 ^ 4)
      ∷ ((in_buf 1 >>> 28) % 2 ^ 4)
      ∷ ((in_buf 2 >>> 0) % 2 ^ 4)
      ∷ ((in_buf 2 >>> 4) % 2 ^ 4)
      ∷ ((in_buf 2 >>> 8) % 2 ^ 4)
      ∷ ((in_buf 2 >>> 12) % 2 ^ 4)
      ∷ ((in_buf 2 >>> 16) % 2 ^ 4)
      ∷ ((in_buf 2 >>> 20) % 2 ^ 4)
      ∷ ((in_buf 2 >>> 24) % 2 ^ 4)
      ∷ ((in_buf 2 >>> 28) % 2 ^ 4)
      ∷ ((in_buf 3 >>> 0) % 2 ^ 4)
      ∷ ((in_buf 3 >>> 4) % 2 ^ 4)
      ∷ ((in_buf 3 >>> 8) % 2 ^ 4)
      ∷ ((in_buf 3 >>> 12) % 2 ^ 4)
      ∷ ((in_buf 3 >>> 16) % 2 ^ 4)
      ∷ ((in_buf 3 >>> 20) % 2 ^ 4)
      ∷ ((in_buf 3 >>> 24) % 2 ^ 4)
      ∷ ((in_buf 3 >>> 28) % 2 ^ 4)
      ∷ [],
  4,
)
