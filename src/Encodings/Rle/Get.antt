-- ===== src/Encodings/Rle/Get.antt =====
-- src/encodings/rle.rs: what `RleDecoder::get` does once a value is there.
use parquet_rs.Encodings.Rle.Decoder.{RleDecoder, next_value}
use parquet_rs.Encodings.Rle.Format.{Run}
use parquet_rs.Encodings.Rle.Reading.{Reading}
use parquet_rs.BitUtil.Batch.Fields.{fields, length-fields}
use parquet_rs.BitUtil.Reader.{BitReader, get_value}
use parquet_rs.BitUtil.Reader.Position.{position}
use parquet_rs.BitUtil.Reader.GetValue.{field_at, get_value_lem}
use parquet_rs.Prelude.{
  ℕ, suc, ◌+◌, ◌-◌, ◌*◌, ◌^◌, ◌≤◌, ◌<◌, List, ◌∷◌, ◌++◌, length, length-append, length-replicate,
  drop, get_or, replicate, true, false, Bool-cases, inl, inr, some, ok, ltb, ltb→lt, le→ltb, ◌≡◌,
  refl, sym, ap, ap₂, ◌∙◌, arith, two_pow_mono,
}
use native.Mathlib.Nat.{mod-eq_of_lt}

-- The head and the tail of a list that starts with a known value.
uncons : {x y : ℕ} {xs ys : List ℕ} → x ∷ xs ≡ y ∷ ys → (x ≡ y) × (xs ≡ ys)
uncons e = (ap (λ (l : List ℕ). get_or l 0 0) e, ap (drop 1) e)

module _ (size_of w v : ℕ) (now : List ℕ) (runs : List Run) (d : RleDecoder)
    (typed : w ≤ 8 * size_of) (narrow : w ≤ 64) (reading : Reading w (v ∷ now) runs d) where
  r : BitReader
  r = reading.reader

  -- A value of a repeated run.
  next_repeated :
      0 < d.rle_left
      → (d' : RleDecoder) × (next_value size_of d ≡ ok (v, d')) × Reading w now runs d'
  unfolding next_value r
  next_repeated more =
      let one_less : d.rle_left ≡ suc (d.rle_left - 1) = omega (arith, more) in
      let (same, others) = uncons (
        reading.values
        ∙ ap
            (λ (c : ℕ).
              replicate c reading.value
              ++ fields r.buffer d.bit_width d.bit_packed_left (position r))
            one_less) in
      let d' : RleDecoder = record d { rle_left = d.rle_left - 1 } in
      let test : ltb 0 d.rle_left ≡ true = ground arith in
      (
        d',
        rw (test, reading.has_value more)
            (ap (λ (x : ℕ). ok (x, record d' { current_value = some reading.value }))
              (mod-eq_of_lt in_type ∙ sym same)),
        record {
          reader = r;
          value = reading.value;
          has_reader = reading.has_reader;
          valid = reading.valid;
          width = reading.width;
          has_value = λ h. reading.has_value more;
          small = reading.small;
          values = others;
          room = reading.room;
          others = reading.others;
        },
      )
    where
      in_type : reading.value < 2 ^ (8 * size_of)
      in_type = omega (arith, reading.small, two_pow_mono w (8 * size_of) typed)

  abbrev left : ℕ
  left = d.bit_packed_left - 1

  -- What `next_value` does with a bit-packed value.
  next_value-packed :
      (x : ℕ) (r' : BitReader)
      → d.rle_left ≡ 0
      → get_value size_of d.bit_width r ≡ ok (some x, r')
      → next_value size_of d
        ≡ ok (x, record d { bit_reader = some r'; bit_packed_left = d.bit_packed_left - 1 })
  unfolding next_value r
  next_value-packed x r' none_left e =
      let test : ltb 0 d.rle_left ≡ false = ground arith in rw (test, reading.has_reader, e) refl

  -- A bit-packed value.
  next_packed :
      d.rle_left ≡ 0
      → (d' : RleDecoder) × (next_value size_of d ≡ ok (v, d')) × Reading w now runs d'
  unfolding r
  next_packed none_left =
      let all : v ∷ now ≡ fields r.buffer d.bit_width (suc left) (position r) =
        reading.values
        ∙ ap₂ (λ (c k : ℕ). replicate c reading.value ++ fields r.buffer d.bit_width k (position r))
            none_left one_less in
      let (first, others) = uncons all in
      let enough : ltb (8 * r.total_bytes) (position r + w) ≡ false =
        le→ltb _ _ (omega (arith, reading.room, bits)) in
      let (r', e, valid', at, same) =
        rw enough at (get_value_lem size_of w r reading.valid narrow typed) in
      let value_is : field_at r.buffer (position r) w ≡ v =
        ap (field_at r.buffer (position r)) (sym reading.width) ∙ sym first in
      (
        record d { bit_reader = some r'; bit_packed_left = left },
        next_value-packed v r' none_left (
            ap (λ (k : ℕ). get_value size_of k r) reading.width
            ∙ e
            ∙ ap (λ (x : ℕ). ok (some x, r')) value_is),
        record {
          reader = r';
          value = reading.value;
          has_reader = refl;
          valid = valid';
          width = reading.width;
          has_value = reading.has_value;
          small = reading.small;
          values =
              others
              ∙ ap₂ (λ (b : List ℕ) (q : ℕ). fields b d.bit_width left q) (sym same)
                  (omega (arith, at, reading.width))
              ∙ ap
                  (λ (c : ℕ).
                    replicate c reading.value ++ fields r'.buffer d.bit_width left (position r'))
                  (sym none_left);
          room =
              omega
                (arith, at, bits, reading.room, reading.valid.fits, valid'.fits, ap length same);
          others =
              ap₂ (λ (k : ℕ) (b : List ℕ). drop k b) (omega (arith, at, bits)) same
              ∙ reading.others;
        },
      )
    where
      one_less : d.bit_packed_left ≡ suc left
      one_less = omega (
        arith,
        none_left,
        ap length reading.values,
        length-append (replicate d.rle_left reading.value)
            (fields r.buffer d.bit_width d.bit_packed_left (position r)),
        length-replicate d.rle_left reading.value,
        length-fields r.buffer d.bit_width d.bit_packed_left (position r),
      )

      bits : w * d.bit_packed_left ≡ w + w * left
      bits = ap (λ (k : ℕ). w * k) one_less ∙ omega arith

  pub next_value_lem :
      (d' : RleDecoder) × (next_value size_of d ≡ ok (v, d')) × Reading w now runs d'
  next_value_lem = elim (Bool-cases (ltb 0 d.rle_left)) [
    | inl more ↦ next_repeated (ltb→lt _ _ more)
    | inr none_left ↦ next_packed (ground arith)
  ]
