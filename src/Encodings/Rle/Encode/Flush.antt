-- ===== src/Encodings/Rle/Encode/Flush.antt =====
-- src/encodings/rle.rs: `flush` writes the values that are not written yet.
use parquet_rs.Encodings.Rle.Encoder.{
  padded, flush_bit_packed_run, RleEncoder, flush, flush_rle_run, flush_packed,
}
use parquet_rs.Encodings.Rle.Format.{Run, IsRun, runs_bytes, runs_values}
use parquet_rs.Encodings.Rle.Encode.Holds.{Holds}
use parquet_rs.Encodings.Rle.Encode.Space.{stream}
use parquet_rs.Prelude.{
  Outcome, ap, ◌++◌, ◌>>=◌, lt→ltb, le→ltb, if_true, if_false, List, ◌≡◌, ok, true,
}
use parquet_rs.Prelude.{
  ℕ, ◌+◌, ◌≤◌, ◌<◌, List, ◌++◌, length, replicate, All, true, false, ◌||◌, ◌&&◌, ok, ◌≡◌, ◌⊎◌, ◌∙◌,
  arith, ltb, ◌==◌, if_true, if_false,
}

-- All that the encoder was given is in the runs, the last of them padded with zeros, and the runs
-- take `bound` bytes at most.
pub record Flushed (head : List ℕ) (bound : ℕ) (vs : List ℕ) (e : RleEncoder) : Type 0 where
  pub none_packed : e.bit_packed_count ≡ 0
  pub none_repeated : e.repeat_count ≡ 0
  pub none_buffered : e.num_buffered_values ≡ 0
  pub runs : List Run
  pub are_runs : All (IsRun e.bit_width) runs
  pub padding : ℕ
  pub short : padding < 8
  pub values : runs_values runs ≡ vs ++ replicate padding 0
  pub fits : length (runs_bytes e.bit_width runs) ≤ bound
  pub holds : Holds (stream head e.bit_width runs) e.bit_writer

busy : (b r k : ℕ) → 0 < b + r + k → (ltb 0 b || (ltb 0 r || ltb 0 k)) ≡ true
busy b r k h = ground arith

idle : (b r k : ℕ) → b ≡ 0 → r ≡ 0 → k ≡ 0 → (ltb 0 b || (ltb 0 r || ltb 0 k)) ≡ false
idle b r k h i j = ground arith

all_repeat :
    (b r k : ℕ)
    → 0 < r
    → b ≡ 0
    → (r ≡ k) ⊎ (k ≡ 0)
    → (ltb 0 r && (b == 0 && (r == k || k == 0))) ≡ true
all_repeat b r k h i j = ground arith

not_repeat : (b r k : ℕ) → (0 < b) ⊎ (r < k) → (ltb 0 r && (b == 0 && (r == k || k == 0))) ≡ false
not_repeat b r k j = ground arith

-- What `flush` does, by its tests.
module _ (e : RleEncoder) where
  pub flush_idle :
      e.bit_packed_count ≡ 0 → e.repeat_count ≡ 0 → e.num_buffered_values ≡ 0 → flush e ≡ ok e
  unfolding flush
  flush_idle h i j =
      if_false _ _ _ (idle e.bit_packed_count e.repeat_count e.num_buffered_values h i j)

  pub flush_run :
      0 < e.repeat_count
      → e.bit_packed_count ≡ 0
      → (e.repeat_count ≡ e.num_buffered_values) ⊎ (e.num_buffered_values ≡ 0)
      → flush e ≡ flush_rle_run e
  unfolding flush
  flush_run h i j =
      if_true _ _ _
        (busy e.bit_packed_count e.repeat_count e.num_buffered_values (omega (arith, h)))
      ∙ if_true _ _ _ (all_repeat e.bit_packed_count e.repeat_count e.num_buffered_values h i j)

  pub flush_rest :
      0 < e.bit_packed_count + e.num_buffered_values
      → (0 < e.bit_packed_count) ⊎ (e.repeat_count < e.num_buffered_values)
      → flush e ≡ flush_packed e
  unfolding flush
  flush_rest h j =
      if_true _ _ _
        (busy e.bit_packed_count e.repeat_count e.num_buffered_values (omega (arith, h)))
      ∙ if_false _ _ _ (not_repeat e.bit_packed_count e.repeat_count e.num_buffered_values j)

-- The encoder goes on as it is, or with a buffer that is filled with zeros.
unfoldable pub closing : RleEncoder → Outcome RleEncoder
closing e =
    flush_bit_packed_run true
      (record e { bit_packed_count = e.bit_packed_count + e.num_buffered_values })
    >>= λ e2. ok (record e2 { repeat_count = 0 })

unfoldable pub filled : RleEncoder → RleEncoder
filled e = record e {
  buffered_values = padded e.num_buffered_values e.buffered_values;
  num_buffered_values = 8;
}

pub flush_packed-closing : (e : RleEncoder) → e.num_buffered_values ≡ 0 → flush_packed e ≡ closing e
unfolding flush_packed closing filled
flush_packed-closing e h =
    ap closing (if_false (ltb 0 e.num_buffered_values) (filled e) e (le→ltb _ _ (omega (arith, h))))

pub flush_packed-filled :
    (e : RleEncoder) → 0 < e.num_buffered_values → flush_packed e ≡ closing (filled e)
unfolding flush_packed closing filled
flush_packed-filled e h =
    ap closing (if_true (ltb 0 e.num_buffered_values) (filled e) e (lt→ltb _ _ h))
