-- ===== src/BitPacking.antt =====
-- src/util/bit_packing.rs: reading 32 values of a fixed bit width at once.
pub mod Word
pub mod Stream
pub mod Reference
mod Bits1To4
mod Bits5To8
mod Bits9To12
mod Bits13To16
mod Bits17To20
mod Bits21To24
mod Bits25To28
mod Bits29To32
mod Widths
pub mod Correct
mod Tests
unfoldable pub use Bits1To4.{unpack1_32, unpack2_32, unpack3_32, unpack4_32}
unfoldable pub use Bits5To8.{unpack5_32, unpack6_32, unpack7_32, unpack8_32}
unfoldable pub use Bits9To12.{unpack9_32, unpack10_32, unpack11_32, unpack12_32}
unfoldable pub use Bits13To16.{unpack13_32, unpack14_32, unpack15_32, unpack16_32}
unfoldable pub use Bits17To20.{unpack17_32, unpack18_32, unpack19_32, unpack20_32}
unfoldable pub use Bits21To24.{unpack21_32, unpack22_32, unpack23_32, unpack24_32}
unfoldable pub use Bits25To28.{unpack25_32, unpack26_32, unpack27_32, unpack28_32}
unfoldable pub use Bits29To32.{unpack29_32, unpack30_32, unpack31_32, unpack32_32}
use parquet_rs.Prelude.{ℕ, List, [], ◌∷◌, replicate, get_elem?, Option, none, some}
use parquet_rs.BitPacking.Word.{Buf}
use mathlib.Core.Option

unfoldable pub nullunpacker32 : Buf → List ℕ × ℕ
nullunpacker32 in_buf = (replicate 32 0, 0)

-- The arms of the `match` in `unpack32`, by width.
unfoldable pub unpackers : List (Buf → List ℕ × ℕ)
unpackers =
    nullunpacker32 ∷ unpack1_32 ∷ unpack2_32 ∷ unpack3_32 ∷ unpack4_32 ∷ unpack5_32 ∷ unpack6_32
    ∷ unpack7_32 ∷ unpack8_32 ∷ unpack9_32 ∷ unpack10_32 ∷ unpack11_32 ∷ unpack12_32 ∷ unpack13_32
    ∷ unpack14_32 ∷ unpack15_32 ∷ unpack16_32 ∷ unpack17_32 ∷ unpack18_32 ∷ unpack19_32
    ∷ unpack20_32 ∷ unpack21_32 ∷ unpack22_32 ∷ unpack23_32 ∷ unpack24_32 ∷ unpack25_32
    ∷ unpack26_32 ∷ unpack27_32 ∷ unpack28_32 ∷ unpack29_32 ∷ unpack30_32 ∷ unpack31_32
    ∷ unpack32_32 ∷ []

-- The 32 values and how many words `in_ptr` moves; `none` is the panic of the last arm.
unfoldable pub unpack32 : Buf → ℕ → Option (List ℕ × ℕ)
unpack32 in_ptr num_bits = Option.map (λ arm. arm in_ptr) (get_elem? unpackers num_bits)
