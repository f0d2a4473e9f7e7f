-- ===== src/BitPacking/Tests.antt =====
-- Runs of src/util/bit_packing.rs on words that are all alike.
use parquet_rs.BitPacking.{unpack32}
use parquet_rs.BitPacking.Stream.{stream, field}
use parquet_rs.BitPacking.Correct.{unpack32_lem, unpack32_wide}
use parquet_rs.Prelude.{◌*◌, map, range, some, none, ◌≡◌, arith}

unpack32_example :
    unpack32 (λ j. 0xABCD1234) 7
    ≡ some (map (λ i. field (stream 7 (λ j. 0xABCD1234)) (7 * i) 7) (range 0 32), 7)
unpack32_example = unpack32_lem (λ j. 0xABCD1234) 7 (λ j. omega arith) (omega arith)

unpack32_wide_example : unpack32 (λ j. 0xABCD1234) 33 ≡ none
unpack32_wide_example = unpack32_wide (λ j. 0xABCD1234) 33 (omega arith)
