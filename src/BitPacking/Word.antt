-- ===== src/BitPacking/Word.antt =====
-- The `u32` operations of src/util/bit_packing.rs, and the memory that the raw pointers reach.
use parquet_rs.Prelude.{ℕ, ◌*◌, ◌/◌, ◌%◌, ◌^◌}

-- The words from `in_ptr` on, as many as the (unchecked) reads ask for.
abbrev pub Buf : Type 0
Buf = ℕ → ℕ

infixl 68 ◌<<<◌ ◌>>>◌
abbrev pub ◌>>>◌ : ℕ → ℕ → ℕ
x >>> k = x / 2 ^ k

-- Bits that leave the word are lost.
abbrev pub ◌<<<◌ : ℕ → ℕ → ℕ
x <<< k = x * 2 ^ k % 2 ^ 32
