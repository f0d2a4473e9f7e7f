-- ===== src/BitUtil/Batch.antt =====
-- src/util/bit_util.rs: `BitReader::get_batch`. `batch` is a list, and the function returns the
-- whole of it again, beside the number of values it read into its front.
pub mod Fields
pub mod Words
pub mod Chunks
pub mod Singles
pub mod Whole
use parquet_rs.Prelude.{
  ℕ, zero, suc, ◌+◌, ◌-◌, ◌*◌, ◌/◌, ◌%◌, ◌^◌, List, [], ◌∷◌, ◌++◌, length, take, drop, Option, none,
  some, Outcome, ok, ◌>>=◌, ◌>>◌, assert, unwrap, ltb, leb, ◌==◌, if◌then◌else◌, Bool, true, false,
  not,
}
use parquet_rs.Prelude.Bytes.{from_le}
use parquet_rs.BitPacking.{unpack32}
use parquet_rs.BitPacking.Word.{Buf}
use parquet_rs.BitUtil.Reader.{BitReader, get_value, reload_buffer_values}

-- The `u32`s that a pointer to these bytes reads.
abbrev pub words : List ℕ → Buf
words bytes j = from_le (take 4 (drop (4 * j) bytes))

-- A place of the batch after a `u32` was copied to it: a type of four bytes takes it, a wider one
-- keeps its upper bytes, a narrower one gets the low bytes.
abbrev pub stored : ℕ → ℕ → ℕ → ℕ
stored size_of old v =
    if size_of == 4
    then v
    else if ltb 4 size_of
    then old / 2 ^ 32 * 2 ^ 32 + v
    else v % 2 ^ (8 * size_of)

abbrev pub store_all : ℕ → List ℕ → List ℕ → List ℕ
store_all size_of (old ∷ olds) (v ∷ vs) = stored size_of old v ∷ store_all size_of olds vs
store_all size_of [] vs = []
store_all size_of (old ∷ olds) [] = []

-- `self.get_value(num_bits).expect(...)` for every place that is left.
unfoldable pub get_each : ℕ → ℕ → List ℕ → BitReader → Outcome (List ℕ × BitReader)
get_each size_of num_bits [] r = ok ([], r)
get_each size_of num_bits (old ∷ olds) r = do
  (next, r1) ← get_value size_of num_bits r
  v ← unwrap next
  (vs, r2) ← get_each size_of num_bits olds r1
  ok (v ∷ vs, r2)

-- The loop that aligns `bit_offset`: what it read, the places that are left, and the reader.
unfoldable pub get_unaligned : ℕ → ℕ → List ℕ → BitReader → Outcome (List ℕ × (List ℕ × BitReader))
get_unaligned size_of num_bits [] r = ok ([], ([], r))
get_unaligned size_of num_bits (old ∷ olds) r = elim (r.bit_offset == 0) [
  | true ↦ ok ([], (old ∷ olds, r))
  | false ↦ (do
    (next, r1) ← get_value size_of num_bits r
    v ← unwrap next
    (vs, (left, r2)) ← get_unaligned size_of num_bits olds r1
    ok (v ∷ vs, (left, r2)))
]

-- The loop over `unpack32`; `in_ptr` is given by the bytes from there on.
unfoldable pub get_chunks :
    ℕ → ℕ → ℕ → List ℕ → List ℕ → BitReader → Outcome (List ℕ × (List ℕ × BitReader))
get_chunks zero size_of num_bits in_ptr olds r = ok ([], (olds, r))
get_chunks (suc fuel) size_of num_bits in_ptr olds r = elim (leb 32 (length olds)) [
  | false ↦ ok ([], (olds, r))
  | true ↦ (do
    (out_buf, moved) ← unwrap (unpack32 (words in_ptr) num_bits)
    let r1 = record r { byte_offset = r.byte_offset + 4 * num_bits }
    (vs, (left, r2)) ← get_chunks fuel size_of num_bits (drop (4 * moved) in_ptr) (drop 32 olds) r1
    ok (store_all size_of (take 32 olds) out_buf ++ vs, (left, r2)))
]

-- How many values are read.
abbrev pub batch_size : ℕ → ℕ → BitReader → ℕ
batch_size num_bits len r =
    let remaining_bits = (r.total_bytes - r.byte_offset) * 8 - r.bit_offset in
    if ltb remaining_bits (num_bits * len) then remaining_bits / num_bits else len

-- What follows the loop that aligns, on the places that are left.
unfoldable pub read_aligned : ℕ → ℕ → List ℕ → BitReader → Outcome (List ℕ × BitReader)
unfolding get_each get_chunks
read_aligned size_of num_bits places r = do
  assert (leb r.byte_offset (length r.buffer))
  let in_buf = drop r.byte_offset r.buffer
  (middle, (left, r2)) ← get_chunks (length places) size_of num_bits in_buf places r
  assert (ltb (length left) 32)
  r3 ← reload_buffer_values r2
  (back, r4) ← get_each size_of num_bits left r3
  ok (middle ++ back, r4)

-- The loops, on the places that values are read into.
unfoldable pub read_batch : ℕ → ℕ → List ℕ → BitReader → Outcome (List ℕ × BitReader)
unfolding get_unaligned read_aligned
read_batch size_of num_bits places r = do
  (front, (left, r1)) ← get_unaligned size_of num_bits places r
  (others, r2) ← read_aligned size_of num_bits left r1
  ok (front ++ others, r2)

unfoldable pub get_batch : ℕ → ℕ → List ℕ → BitReader → Outcome (ℕ × (List ℕ × BitReader))
unfolding read_batch
get_batch size_of num_bits batch r = do
  assert (leb num_bits 32)
  assert (leb num_bits (size_of * 8))
  let values_to_read = batch_size num_bits (length batch) r
  (values, r') ← read_batch size_of num_bits (take values_to_read batch) r
  ok (values_to_read, (values ++ drop values_to_read batch, r'))
