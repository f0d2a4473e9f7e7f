-- ===== src/Encodings/Rle/Batch.antt =====
-- src/encodings/rle.rs: `RleDecoder::get_batch`. The slice `buffer` is a list; the loop works on the
-- places that are left of it.
use parquet_rs.Encodings.Rle.Decoder.{RleDecoder, reload, refill_fuel}
use parquet_rs.BitUtil.Batch
use parquet_rs.Prelude.{
  ℕ, zero, suc, ◌+◌, ◌-◌, ◌*◌, ◌%◌, ◌^◌, min, List, [], ◌∷◌, ◌++◌, length, take, drop, replicate,
  some, Outcome, ok, running, ◌>>=◌, ◌>>◌, assert, unwrap, ltb, leb, if◌then◌else◌,
}

-- Some values, the places that are left, and the decoder.
abbrev pub Filled : Type 0
Filled = List ℕ × (List ℕ × RleDecoder)

-- The round that repeats the current value.
unfoldable pub fill_repeated : ℕ → List ℕ → RleDecoder → Outcome Filled
fill_repeated size_of places d = do
  value ← unwrap d.current_value
  let num_values = min (length places) d.rle_left
  ok (
    replicate num_values (value % 2 ^ (8 * size_of)),
    (drop num_values places, record d { rle_left = d.rle_left - num_values }),
  )

-- The round that reads bit-packed values; `num_values` may be less than asked for.
unfoldable pub fill_packed : ℕ → List ℕ → RleDecoder → Outcome Filled
fill_packed size_of places d = do
  r ← unwrap d.bit_reader
  let asked = min (length places) d.bit_packed_left
  (num_values, (values, r')) ← Batch.get_batch size_of d.bit_width (take asked places) r
  ok (
    take num_values values,
    (
      drop num_values places,
      record d { bit_reader = some r'; bit_packed_left = d.bit_packed_left - num_values },
    ),
  )

-- What is done with the values of a round: the loop goes on behind them.
unfoldable pub after_round : (List ℕ → RleDecoder → Outcome Filled) → Filled → Outcome Filled
after_round more (values, (places, d)) = do
  (others, (left, d')) ← more places d
  ok (values ++ others, (left, d'))

-- One round of the loop, on at least one place; `more` are the rounds that follow.
unfoldable pub fill_round :
    (List ℕ → RleDecoder → Outcome Filled) → ℕ → List ℕ → RleDecoder → Outcome Filled
unfolding fill_repeated fill_packed after_round
fill_round more size_of places d =
    if ltb 0 d.rle_left
    then fill_repeated size_of places d >>= after_round more
    else if ltb 0 d.bit_packed_left
    then fill_packed size_of places d >>= after_round more
    else (do (loaded, d') ← reload d; if loaded then more places d' else ok ([], (places, d')))

-- `while values_read < buffer.len()`, on fuel. On data that end inside a bit-packed run the loop of
-- the code does not end.
unfoldable pub fill_loop : ℕ → ℕ → List ℕ → RleDecoder → Outcome Filled
fill_loop zero size_of places d = running
fill_loop (suc fuel) size_of [] d = ok ([], ([], d))
fill_loop (suc fuel) size_of (place ∷ places) d =
    fill_round (fill_loop fuel size_of) size_of (place ∷ places) d

-- The number of values read, the slice after that, and the decoder.
unfoldable pub get_batch : ℕ → List ℕ → RleDecoder → Outcome (ℕ × (List ℕ × RleDecoder))
unfolding fill_loop
get_batch size_of buffer d = do
  _ ← unwrap d.bit_reader
  assert (leb size_of 8)
  (values, (left, d')) ← fill_loop (length buffer + refill_fuel d) size_of buffer d
  ok (length values, (values ++ left, d'))
