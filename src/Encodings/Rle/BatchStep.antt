-- ===== src/Encodings/Rle/BatchStep.antt =====
-- src/encodings/rle.rs: what one round of `RleDecoder::get_batch` reads.
use parquet_rs.Encodings.Rle.Decoder.{RleDecoder}
use parquet_rs.Encodings.Rle.Batch.{Filled, fill_repeated, fill_packed}
use parquet_rs.Encodings.Rle.Format.{Run}
use parquet_rs.Encodings.Rle.Reading.{Reading}
use parquet_rs.BitUtil.Batch
use parquet_rs.BitUtil.Batch.{batch_size}
use parquet_rs.BitUtil.Batch.Fields.{fields, fields-append, length-fields, Ready}
use parquet_rs.BitUtil.Batch.Singles.{Past, fields-Past, total_bytes_same}
use parquet_rs.BitUtil.Batch.Whole.{get_batch-batch_size}
use parquet_rs.BitUtil.Reader.{BitReader}
use parquet_rs.BitUtil.Reader.Position.{position}
use parquet_rs.Prelude.{
  ℕ, zero, suc, ◌+◌, ◌-◌, ◌*◌, ◌^◌, ◌≤◌, ◌<◌, min, List, ◌∷◌, ◌++◌, length, length-replicate,
  length-take, take, take_append_exact, drop, replicate, All, All-take, some, Outcome, ok, le→ltb,
  ◌≡◌, refl, subst, sym, ap, ap₂, ◌∙◌, arith, two_pow_mono,
}
use mathlib.Core.List.{append_assoc}
use native.Mathlib.Nat.{mod-eq_of_lt}

-- A round that read the front of `now` into the first places.
pub record Round (w : ℕ) (now : List ℕ) (runs : List Run) (places : List ℕ)
    (result : Outcome Filled) : Type 0 where
  pub read : List ℕ
  pub later : List ℕ
  pub next : RleDecoder
  pub is : result ≡ ok (read, (drop (length read) places, next))
  pub reading : Reading w later runs next
  pub split : read ++ later ≡ now
  pub some_read : 0 < length read
  pub fits : length read ≤ length places

replicate-append : (a b x : ℕ) → replicate a x ++ replicate b x ≡ replicate (a + b) x
replicate-append zero b x = ap (λ (k : ℕ). replicate k x) (omega arith)
replicate-append (suc a) b x =
    ap (λ (l : List ℕ). x ∷ l) (replicate-append a b x)
    ∙ ap (λ (k : ℕ). replicate k x) (let e : suc (a + b) ≡ suc a + b = omega arith in e)

module _ (size_of w : ℕ) (narrow : w ≤ 32) (typed : w ≤ 8 * size_of) (now : List ℕ)
    (runs : List Run) (places : List ℕ) (d : RleDecoder) (reading : Reading w now runs d)
    (free : 0 < length places) where
  r : BitReader
  r = reading.reader

  pub fill_repeated_lem : 0 < d.rle_left → Round w now runs places (fill_repeated size_of places d)
  unfolding fill_repeated r
  fill_repeated_lem more = record {
    read = replicate m reading.value;
    later =
        replicate (d.rle_left - m) reading.value
        ++ fields r.buffer d.bit_width d.bit_packed_left (position r);
    next = next;
    is = rw (reading.has_value more) (
        ap₂
          (λ (x k : ℕ).
            ok (replicate m x, (drop k places, record next { current_value = some reading.value })))
          (mod-eq_of_lt in_type) (sym (length-replicate m reading.value)));
    reading = record {
      reader = r;
      value = reading.value;
      has_reader = reading.has_reader;
      valid = reading.valid;
      width = reading.width;
      has_value = λ h. reading.has_value more;
      small = reading.small;
      values = refl;
      room = reading.room;
      others = reading.others;
    };
    split =
        sym (append_assoc (replicate m reading.value) (replicate (d.rle_left - m) reading.value) _)
        ∙ ap (λ (l : List ℕ). l ++ fields r.buffer d.bit_width d.bit_packed_left (position r))
            (replicate-append m (d.rle_left - m) reading.value
              ∙ ap (λ (k : ℕ). replicate k reading.value)
                  (let e : m + (d.rle_left - m) ≡ d.rle_left = omega arith in e))
        ∙ sym reading.values;
    some_read = omega (arith, length-replicate m reading.value, free, more);
    fits = omega (arith, length-replicate m reading.value);
  }
    where
      m : ℕ
      m = min (length places) d.rle_left

      next : RleDecoder
      next = record d { rle_left = d.rle_left - m }

      in_type : reading.value < 2 ^ (8 * size_of)
      in_type = omega (arith, reading.small, two_pow_mono w (8 * size_of) typed)

  batch_size_all : (len : ℕ) → position r + w * len ≤ 8 * r.total_bytes → batch_size w len r ≡ len
  unfolding r
  batch_size_all len room =
      ground (arith, le→ltb ((r.total_bytes - r.byte_offset) * 8 - r.bit_offset) (w * len))

  -- As many values as there are places, or as are left of the run.
  abbrev many : ℕ
  many = min (length places) d.bit_packed_left

  read_packed : BitReader → RleDecoder
  read_packed r' = record d { bit_reader = some r'; bit_packed_left = d.bit_packed_left - many }

  abbrev packed_values : List ℕ
  packed_values = fields reading.reader.buffer w many (position reading.reader)

  fill_packed-get_batch :
      (values : List ℕ) (r' : BitReader)
      → Batch.get_batch size_of d.bit_width (take many places) r ≡ ok (many, (values, r'))
      → fill_packed size_of places d ≡ ok (take many values, (drop many places, read_packed r'))
  unfolding fill_packed r read_packed
  fill_packed-get_batch values r' e = rw (reading.has_reader, e) refl

  get_packed :
      All (Ready size_of) places
      → (r' : BitReader) × (fill_packed size_of places d
          ≡ ok (packed_values, (drop (length packed_values) places, read_packed r')))
        × Past w many r r'
  unfolding r
  get_packed ready =
      let (k, r', size, e, past) =
        get_batch-batch_size size_of w (take many places) reading.reader reading.valid narrow typed
          (All-take (Ready size_of) many places ready) in
      let all_read : k ≡ many =
        size
        ∙ batch_size_all (length (take many places))
            (omega (arith, reading.room, ap (λ (x : ℕ). w * x) taken, bits))
        ∙ taken in
      (
        r',
        fill_packed-get_batch (packed_values ++ drop many (take many places)) r' (
              ap (λ (b : ℕ). Batch.get_batch size_of b (take many places) reading.reader)
                reading.width
              ∙ e
              ∙ ap
                  (λ (x : ℕ). ok (
                    x,
                    (
                      fields reading.reader.buffer w x (position reading.reader)
                          ++ drop x (take many places),
                      r',
                    ),
                  ))
                  all_read)
            ∙ ap₂ (λ (l : List ℕ) (x : ℕ). ok (l, (drop x places, read_packed r'))) only_values
                (sym counted),
        subst (λ (x : ℕ). Past w x reading.reader r') all_read past,
      )
    where
      taken : length (take many places) ≡ many
      taken = omega (arith, length-take many places)

      counted : length packed_values ≡ many
      counted = length-fields reading.reader.buffer w many (position reading.reader)

      only_values : take many (packed_values ++ drop many (take many places)) ≡ packed_values
      only_values =
          ap (λ (x : ℕ). take x (packed_values ++ drop many (take many places))) (sym counted)
          ∙ take_append_exact packed_values (drop many (take many places))

      bits : w * many + w * (d.bit_packed_left - many) ≡ w * d.bit_packed_left
      bits = omega (
        arith,
        ap (λ (x : ℕ). w * x)
            (let e : many + (d.bit_packed_left - many) ≡ d.bit_packed_left = omega arith in e),
      )

  pub fill_packed_lem :
      d.rle_left ≡ 0
      → 0 < d.bit_packed_left
      → All (Ready size_of) places
      → Round w now runs places (fill_packed size_of places d)
  unfolding r read_packed
  fill_packed_lem none_left more ready =
      let (r', e, past) = get_packed ready in
      record {
        read = packed_values;
        later = fields r'.buffer w left (position r');
        next = read_packed r';
        is = e;
        reading = record {
          reader = r';
          value = reading.value;
          has_reader = refl;
          valid = past.valid;
          width = reading.width;
          has_value = reading.has_value;
          small = reading.small;
          values =
              ap₂ (λ (c b : ℕ). replicate c reading.value ++ fields r'.buffer b left (position r'))
                (sym none_left) (sym reading.width);
          room = omega (arith, past.moved, reading.room, bits, total_bytes_same reading.valid past);
          others =
              ap₂ (λ (k : ℕ) (b : List ℕ). drop k b) (omega (arith, past.moved, bits))
                past.same_buffer
              ∙ reading.others;
        };
        split =
            ap (λ (l : List ℕ). packed_values ++ l) (fields-Past past left)
            ∙ fields-append reading.reader.buffer w many left (position reading.reader)
            ∙ ap₂ (λ (b k : ℕ). fields reading.reader.buffer b k (position reading.reader))
                (sym reading.width) whole
            ∙ ap
                (λ (c : ℕ).
                  replicate c reading.value
                  ++ fields reading.reader.buffer d.bit_width d.bit_packed_left
                      (position reading.reader))
                (sym none_left)
            ∙ sym reading.values;
        some_read = omega (arith, counted, free, more);
        fits = omega (arith, counted);
      }
    where
      left : ℕ
      left = d.bit_packed_left - many

      whole : many + left ≡ d.bit_packed_left
      whole = omega arith

      counted : length packed_values ≡ many
      counted = length-fields reading.reader.buffer w many (position reading.reader)

      bits : w * many + w * left ≡ w * d.bit_packed_left
      bits = omega (arith, ap (λ (x : ℕ). w * x) whole)
