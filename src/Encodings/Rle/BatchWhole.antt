-- ===== src/Encodings/Rle/BatchWhole.antt =====
-- src/encodings/rle.rs: `RleDecoder::get_batch` as a whole.
use parquet_rs.Encodings.Rle.Decoder.{RleDecoder, refill_fuel}
use parquet_rs.Encodings.Rle.Batch.{Filled, fill_loop, get_batch}
use parquet_rs.Encodings.Rle.BatchLoop.{Ended, fill_loop_lem}
use parquet_rs.Encodings.Rle.SetData.{Returns, enough_fuel}
use parquet_rs.BitUtil.Reader.{BitReader}
use parquet_rs.BitUtil.Batch.Fields.{Ready}
use parquet_rs.Prelude.{
  ℕ, ◌+◌, ◌*◌, ◌≤◌, min, List, ◌++◌, length, drop, take, take_append_exact, drop_append_exact, All,
  Option, some, Outcome, ok, ◌>>=◌, ◌>>◌, assert, unwrap, leb, le→leb, ◌≡◌, subst, sym, ap, ◌∙◌,
  arith,
}

get_batch-fill_loop :
    (size_of : ℕ) (buffer read left : List ℕ) (r : BitReader) (d d' : RleDecoder)
    → size_of ≤ 8
    → d.bit_reader ≡ some r
    → fill_loop (length buffer + refill_fuel d) size_of buffer d ≡ ok (read, (left, d'))
    → get_batch size_of buffer d ≡ ok (length read, (read ++ left, d'))
unfolding get_batch
get_batch-fill_loop size_of buffer read left r d d' eight has_reader e =
    ap
      (λ (o : Option BitReader). unwrap o >>= λ _.
        assert (leb size_of 8)
        >> (fill_loop (length buffer + refill_fuel d) size_of buffer d >>= λ (values, (places, d1)).
            ok (length values, (values ++ places, d1))))
      has_reader
    ∙ ap
        (λ m.
          assert m
          >> (fill_loop (length buffer + refill_fuel d) size_of buffer d
              >>= λ (values, (places, d1)). ok (length values, (values ++ places, d1))))
        (le→leb size_of 8 eight)
    ∙ ap
        (λ (m : Outcome Filled).
          m >>= λ (values, (places, d1)). ok (length values, (values ++ places, d1)))
        e

-- A decoder that still has the values `all` to return, of a width of 32 at most, fills the slice
-- `buffer` of a type that is wide enough, and no wider than eight bytes, with as many of them as it
-- has places, or with all of them: they are the next values in order, the rest of the slice stays,
-- and the decoder then has the others to return. The places of a type of more than four bytes hold
-- numbers below 2 ^ 32 before. The loop ends, and nothing panics or fails.
pub get_batch-runs_values :
    (w size_of : ℕ) (buffer all : List ℕ) (d : RleDecoder)
    → w ≤ 32
    → w ≤ 8 * size_of
    → size_of ≤ 8
    → All (Ready size_of) buffer
    → Returns w all d
    → (k : ℕ) × (d' : RleDecoder) × (k ≡ min (length buffer) (length all))
      × (get_batch size_of buffer d ≡ ok (k, (take k all ++ drop k buffer, d')))
      × Returns w (drop k all) d'
get_batch-runs_values w size_of buffer all d narrow typed eight ready state =
    let ended : Ended w all buffer (fill_loop (length buffer + refill_fuel d) size_of buffer d) =
      subst
        (λ (l : List ℕ).
          Ended w l buffer (fill_loop (length buffer + refill_fuel d) size_of buffer d))
        state.same
        (fill_loop_lem size_of w narrow typed (length buffer + refill_fuel d) buffer state.now
          state.runs d (omega (arith, enough_fuel d state.reading)) ready state.are_runs
          state.reading) in
    let front : take (length ended.read) all ≡ ended.read =
      ap (take (length ended.read)) (sym ended.split) ∙ take_append_exact ended.read ended.later in
    let back : drop (length ended.read) all ≡ ended.later =
      ap (drop (length ended.read)) (sym ended.split) ∙ drop_append_exact ended.read ended.later in
    (
      length ended.read,
      ended.next,
      ended.counted,
      get_batch-fill_loop size_of buffer ended.read (drop (length ended.read) buffer)
            state.reading.reader d ended.next eight state.reading.has_reader ended.is
          ∙ ap
              (λ (l : List ℕ).
                ok (length ended.read, (l ++ drop (length ended.read) buffer, ended.next)))
              (sym front),
      subst (λ (l : List ℕ). Returns w l ended.next) (sym back) ended.state,
    )
