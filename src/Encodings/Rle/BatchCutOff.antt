-- ===== src/Encodings/Rle/BatchCutOff.antt =====
-- src/encodings/rle.rs: `RleDecoder::get_batch` on data that end inside a bit-packed run.
use parquet_rs.Encodings.Rle.Decoder.{RleDecoder}
use parquet_rs.Encodings.Rle.Batch.{Filled, fill_packed, after_round, fill_loop}
use parquet_rs.Encodings.Rle.BatchLoop.{round-packed}
use parquet_rs.BitUtil.Batch
use parquet_rs.BitUtil.Batch.{batch_size}
use parquet_rs.BitUtil.Batch.Fields.{fields, Ready}
use parquet_rs.BitUtil.Batch.Singles.{Past, total_bytes_same}
use parquet_rs.BitUtil.Batch.Whole.{get_batch-batch_size}
use parquet_rs.BitUtil.Reader.{BitReader}
use parquet_rs.BitUtil.Reader.Position.{IsValid, position}
use parquet_rs.Prelude.{
  ℕ, zero, suc, ◌+◌, ◌-◌, ◌*◌, ◌≤◌, ◌<◌, min, List, [], ◌∷◌, ◌++◌, length, length-take, take, drop,
  All, All-take, some, Outcome, ok, running, ◌>>=◌, lt→ltb, ◌≡◌, refl, subst, ap, ap₂, ◌∙◌, arith,
}
use native.Mathlib.Nat.{div-eq_of_lt, mul-le-mul_left}

-- Values of a bit-packed run are expected, but the reader has no whole one left.
pub record CutOff (w : ℕ) (d : RleDecoder) : Type 0 where
  pub reader : BitReader
  pub has_reader : d.bit_reader ≡ some reader
  pub valid : IsValid reader
  pub width : d.bit_width ≡ w
  pub none_repeated : d.rle_left ≡ 0
  pub expected : 0 < d.bit_packed_left
  pub short : 8 * reader.total_bytes < position reader + w

fill_packed-get_batch :
    (size_of k : ℕ) (places values : List ℕ) (r r' : BitReader) (d : RleDecoder)
    → d.bit_reader ≡ some r
    → Batch.get_batch size_of d.bit_width (take (min (length places) d.bit_packed_left) places) r
      ≡ ok (k, (values, r'))
    → fill_packed size_of places d
      ≡ ok (
        take k values,
        (drop k places, record d { bit_reader = some r'; bit_packed_left = d.bit_packed_left - k }),
      )
unfolding fill_packed
fill_packed-get_batch size_of k places values r r' d has_reader e = rw (has_reader, e) refl

batch_size_none :
    (w len : ℕ) (r : BitReader)
    → IsValid r
    → 8 * r.total_bytes < position r + w
    → 0 < len
    → batch_size w len r ≡ 0
batch_size_none w len r valid short more =
    rw
      (lt→ltb ((r.total_bytes - r.byte_offset) * 8 - r.bit_offset) (w * len)
        (omega (arith, valid.room, short, mul-le-mul_left w more)))
      (div-eq_of_lt (omega (arith, valid.room, short)))

module _ (size_of w : ℕ) (narrow : w ≤ 32) (typed : w ≤ 8 * size_of) where
  empty_round :
      (places : List ℕ) (d : RleDecoder)
      → All (Ready size_of) places
      → 0 < length places
      → CutOff w d
      → (d' : RleDecoder) × (fill_packed size_of places d ≡ ok ([], (places, d'))) × CutOff w d'
  empty_round places d ready free cut =
      let (k, r', size, e, past) =
        get_batch-batch_size size_of w (take m places) cut.reader cut.valid narrow typed
          (All-take (Ready size_of) m places ready) in
      let nothing : k ≡ 0 =
        size
        ∙ batch_size_none w (length (take m places)) cut.reader cut.valid cut.short
            (omega (arith, length-take m places, free, cut.expected)) in
      let values : List ℕ =
        fields cut.reader.buffer w k (position cut.reader) ++ drop k (take m places) in
      let past0 = subst (λ (x : ℕ). Past w x cut.reader r') nothing past in
      let less : d.bit_packed_left - k ≡ d.bit_packed_left = omega (arith, nothing) in
      (
        record d { bit_reader = some r' },
        fill_packed-get_batch size_of k places values cut.reader r' d cut.has_reader
              (ap (λ (b : ℕ). Batch.get_batch size_of b (take m places) cut.reader) cut.width ∙ e)
            ∙ ap₂
                (λ (x y : ℕ). ok (
                  take x values,
                  (drop x places, record d { bit_reader = some r'; bit_packed_left = y }),
                ))
                nothing less,
        record {
          reader = r';
          has_reader = refl;
          valid = past0.valid;
          width = cut.width;
          none_repeated = cut.none_repeated;
          expected = cut.expected;
          short = omega (arith, cut.short, past0.moved, total_bytes_same cut.valid past0);
        },
      )
    where
      m : ℕ
      m = min (length places) d.bit_packed_left

  -- On data that end inside a bit-packed run, once fewer bits are left than a value has, the loop of
  -- `get_batch` does not end while a place is free: no number of rounds is enough. The width is 32
  -- at most and fits the type, and the places of a type of more than four bytes hold numbers below
  -- 2 ^ 32.
  pub fill_loop_stuck :
      (fuel place : ℕ) (places : List ℕ) (d : RleDecoder)
      → All (Ready size_of) (place ∷ places)
      → CutOff w d
      → fill_loop fuel size_of (place ∷ places) d ≡ running
  unfolding fill_loop after_round
  fill_loop_stuck zero place places d ready cut = refl
  fill_loop_stuck (suc fuel) place places d ready cut =
      let (d', e, cut') = empty_round (place ∷ places) d ready (omega arith) cut in
      round-packed size_of w narrow typed (fill_loop fuel size_of) (place ∷ places) d
        cut.none_repeated cut.expected
      ∙ ap (λ (m : Outcome Filled). m >>= after_round (fill_loop fuel size_of)) e
      ∙ ap (λ (m : Outcome Filled). m >>= λ (others, (left, d1)). ok (others, (left, d1)))
          (fill_loop_stuck fuel place places d' ready cut')
