-- ===== src/Encodings/Rle/Encode/Packed.antt =====
-- src/encodings/rle.rs: `flush_bit_packed_run` adds values to a bit-packed run, and ends it.
use parquet_rs.Encodings.Rle.Encoder.{
  RleEncoder, reserve_indicator, write_indicator, flush_bit_packed_run,
}
use parquet_rs.Encodings.Rle.Format.{packed, run_bytes, spell}
use parquet_rs.Encodings.Rle.Bits.{spell-lt}
use parquet_rs.Encodings.Rle.Encode.Holds.{
  Holds, HoldsOpen, reserve_lem, put_literals_lem, put_indicator_lem,
}
use parquet_rs.BitUtil.Writer.{BitWriter, skip, put_aligned_offset}
use parquet_rs.BitUtil.Vlq.Format.{vlq_bytes_last}
use parquet_rs.Prelude.{
  ◌==◌, ==_iff, ℕ, ◌+◌, ◌*◌, ◌/◌, ◌%◌, ◌^◌, ◌≤◌, ◌<◌, List, [], ◌∷◌, ◌++◌, length, length-append,
  take, All, All-append, Option, none, some, true, false, ok, ◌≡◌, ◌⊎◌, inl, inr, refl, sym, ap,
  ap₂, ◌∙◌, subst, arith, bit_or, holds_below, holds_below_at, bind_to,
}
use parquet_rs.Prelude.Bytes.{
  IsByte, from_le, to_le, length-to_le, from_le-to_le, from_le-append, byte_pow-eq-two_pow,
}
use native.Mathlib.Nat.{mod-eq_of_lt}

-- What the writer holds, by the place of the indicator byte: between two runs, or inside one.
abbrev pub IsOpenAt : ℕ → List ℕ → List ℕ → Option ℕ → BitWriter → Type 0
IsOpenAt n bytes vs at w =
    ((at ≡ none) × (vs ≡ []) × Holds bytes w)
    ⊎ ((at ≡ some (length bytes)) × HoldsOpen n bytes vs w)

reserved_lem :
    (n : ℕ) (bytes vs : List ℕ) (at : Option ℕ) (w : BitWriter)
    → IsOpenAt n bytes vs at w
    → length bytes + 1 ≤ w.max_bytes
    → (w' : BitWriter) × (reserve_indicator at w ≡ ok (length bytes, w'))
      × HoldsOpen n bytes vs w'
      × (w'.max_bytes ≡ w.max_bytes)
unfolding reserve_indicator
reserved_lem n bytes vs at w (inl (nowhere, empty, h)) room =
    let (w', e, h', same) = reserve_lem n bytes w h room in
    (
      w',
      ap (λ o. reserve_indicator o w) nowhere
          ∙ bind_to (skip 1 w) (some (length bytes), w') _ e refl,
      subst (λ l. HoldsOpen n bytes l w') (sym empty) h',
      same,
    )
reserved_lem n bytes vs at w (inr (there, h)) room =
    (w, ap (λ o. reserve_indicator o w) there, h, refl)

indicator_table : holds_below 64 (λ g. bit_or (g * 2) 1 == 2 * g + 1) ≡ true
unfolding holds_below
indicator_table = refl

-- The indicator byte of a run of `g` groups.
indicator_lem : (g : ℕ) → g < 64 → bit_or (8 * g / 8 * 2 % 2 ^ 64) 1 % 256 ≡ 2 * g + 1
indicator_lem g few =
    let same : 8 * g / 8 * 2 % 2 ^ 64 ≡ g * 2 = omega (arith, few) in
    ap (λ (t : ℕ). bit_or t 1 % 256) same
    ∙ ap (λ (t : ℕ). t % 256) ((==_iff _ _).0 (holds_below_at 64 _ g indicator_table few))
    ∙ omega (arith, few)

packed_bytes :
    (n g : ℕ) (vs : List ℕ)
    → g < 64
    → run_bytes n (packed g vs) ≡ (2 * g + 1) ∷ to_le (n * g) (spell n vs)
packed_bytes n g vs few =
    ap (λ l. l ++ to_le (n * g) (spell n vs)) (vlq_bytes_last 9 (2 * g + 1) (omega (arith, few)))

-- The bytes of a bit-packed run as a number.
packed_number :
    (n g : ℕ) (vs : List ℕ)
    → g < 64
    → length vs ≡ 8 * g
    → All (λ v. v < 2 ^ n) vs
    → from_le (run_bytes n (packed g vs)) ≡ 2 * g + 1 + 256 * spell n vs
unfolding from_le
packed_number n g vs few size small =
    let bits : 256 ^ (n * g) ≡ 2 ^ (n * length vs) =
      byte_pow-eq-two_pow (n * g)
      ∙ ap (λ (k : ℕ). 2 ^ k)
          (let e : 8 * (n * g) ≡ n * length vs = omega (arith, ap (λ (k : ℕ). n * k) size) in e) in
    ap from_le (packed_bytes n g vs few)
    ∙ ap (λ (t : ℕ). 2 * g + 1 + 256 * t)
        (from_le-to_le (n * g) (spell n vs)
          ∙ ap (λ (t : ℕ). spell n vs % t) bits
          ∙ mod-eq_of_lt (spell-lt n vs small))

pub packed_length :
    (n g : ℕ) (vs : List ℕ) → g < 64 → length (run_bytes n (packed g vs)) ≡ 1 + n * g
packed_length n g vs few =
    omega (arith, ap length (packed_bytes n g vs few), length-to_le (n * g) (spell n vs))

-- What the call does to an encoder that has some values buffered.
module _ (bytes vs : List ℕ) (e : RleEncoder)
    (state : IsOpenAt e.bit_width bytes vs e.indicator_byte_pos e.bit_writer)
    (narrow : e.bit_width ≤ 64)
    (small : All (λ v. v < 2 ^ e.bit_width) (take e.num_buffered_values e.buffered_values))
    (room : 8 * (length bytes + 1)
        + e.bit_width * (length vs + length (take e.num_buffered_values e.buffered_values))
      ≤ 8 * e.bit_writer.max_bytes) where
  abbrev xs : List ℕ
  xs = take e.num_buffered_values e.buffered_values

  pub flush_open :
      (w : BitWriter) × (flush_bit_packed_run false e
        ≡ ok (record e {
          bit_writer = w;
          num_buffered_values = 0;
          indicator_byte_pos = some (length bytes);
        }))
      × HoldsOpen e.bit_width bytes (vs ++ xs) w
      × (w.max_bytes ≡ e.bit_writer.max_bytes)
  unfolding flush_bit_packed_run
  flush_open =
      let (w1, e1, h1, same1) =
        reserved_lem e.bit_width bytes vs e.indicator_byte_pos e.bit_writer state
          (omega (arith, room)) in
      let (w2, e2, h2, same2) =
        put_literals_lem e.bit_width bytes vs xs w1 narrow small h1 (omega (arith, room, same1)) in
      (w2, bind_to _ (length bytes, w1) _ e1 (bind_to _ w2 _ e2 refl), h2, same2 ∙ same1)

  pub flush_closed :
      (g : ℕ)
      → g < 64
      → e.bit_packed_count ≡ 8 * g
      → length (vs ++ xs) ≡ 8 * g
      → All (λ v. v < 2 ^ e.bit_width) vs
      → All IsByte bytes
      → (w : BitWriter) × (flush_bit_packed_run true e
          ≡ ok (record e {
            bit_writer = w;
            num_buffered_values = 0;
            indicator_byte_pos = none;
            bit_packed_count = 0;
          }))
        × Holds (bytes ++ run_bytes e.bit_width (packed g (vs ++ xs))) w
        × (w.max_bytes ≡ e.bit_writer.max_bytes)
  unfolding flush_bit_packed_run write_indicator
  flush_closed g few count size all are_bytes =
      let (w1, e1, h1, same1) =
        reserved_lem e.bit_width bytes vs e.indicator_byte_pos e.bit_writer state
          (omega (arith, room)) in
      let (w2, e2, h2, same2) =
        put_literals_lem e.bit_width bytes vs xs w1 narrow small h1 (omega (arith, room, same1)) in
      let (w3, e3, valid, place, held, same3) =
        put_indicator_lem e.bit_width (2 * g + 1) bytes (vs ++ xs) w2 (omega (arith, few)) are_bytes
          h2 in
      let code : bit_or (e.bit_packed_count / 8 * 2 % 2 ^ 64) 1 % 256 ≡ 2 * g + 1 =
        ap (λ (k : ℕ). bit_or (k / 8 * 2 % 2 ^ 64) 1 % 256) count ∙ indicator_lem g few in
      (
        w3,
        bind_to _ (length bytes, w1) _ e1
            (bind_to _ w2 _ e2 (
              bind_to _ (true, w3) _
                (ap (λ (c : ℕ). put_aligned_offset c 1 (length bytes) w2) code ∙ e3) refl)),
        record {
          valid = valid;
          place = omega (
            arith,
            place,
            h2.place,
            length-append bytes (run_bytes e.bit_width (packed g (vs ++ xs))),
            packed_length e.bit_width g (vs ++ xs) few,
            ap (λ (k : ℕ). e.bit_width * k) size,
          );
          held =
              held
              ∙ ap₂ (λ (x y : ℕ). from_le bytes + x * y) (sym (byte_pow-eq-two_pow (length bytes)))
                  (sym (
                    packed_number e.bit_width g (vs ++ xs) few size (All-append _ vs xs all small)))
              ∙ sym (from_le-append bytes (run_bytes e.bit_width (packed g (vs ++ xs))));
        },
        same3 ∙ same2 ∙ same1,
      )
