-- ===== src/BitUtil/Writer/PutValue.antt =====
-- src/util/bit_util.rs: `BitWriter::put_value` appends a field to the bit string.
use parquet_rs.BitUtil.Writer.{BitWriter, joined, put_spilling, put_value}
use parquet_rs.BitUtil.Writer.Invariant.{
  IsValid, position, written, copied, memcpy_value_lem, length-copied, copied-IsByte,
  from_le-take-copied,
}
use parquet_rs.BitUtil.Scalar.{checked_shr}
use parquet_rs.Prelude.{
  ℕ, ◌+◌, ◌-◌, ◌*◌, ◌/◌, ◌%◌, ◌^◌, ◌≤◌, ◌<◌, length, take, true, false, Bool-cases, inl, inr, ok,
  ltb, ltb→lt, ltb→le, leb, leb→le, if◌then◌else◌, bit_or, ◌≡◌, refl, sym, ap, ap₂, ◌∙◌, arith,
  two_pow_pos, two_pow-add, two_pow_mono, add_mul-lt, shift_mod, shift-lt, bit_or_disjoint,
}
use parquet_rs.Prelude.Bytes.{from_le}
use native.Mathlib.Nat.{mod-eq_of_lt, mod-lt, div-eq_of_lt, div-add-mod}

-- What a successful `put_value` leaves.
pub record Appended (w : BitWriter) (v num_bits : ℕ) (w' : BitWriter) : Type 0 where
  pub valid : IsValid w'
  pub longer : position w' ≡ position w + num_bits
  pub value : written w' ≡ written w + 2 ^ position w * v
  pub same_room : w'.max_bytes ≡ w.max_bytes
  pub same_start : w'.start ≡ w.start
  pub later : w.byte_offset ≤ w'.byte_offset

regroup :
    (front low v p b : ℕ)
    → front + 2 ^ p * (low + 2 ^ b * v) ≡ front + 2 ^ p * low + 2 ^ (p + b) * v
regroup front low v p b = omega (arith, ap (λ (t : ℕ). t * v) (two_pow-add p b))

regroup_spilled :
    (front low v p b c : ℕ)
    → front + 2 ^ p * (low + 2 ^ b * (v % 2 ^ c)) + 2 ^ (p + (b + c)) * (v / 2 ^ c)
      ≡ front + 2 ^ p * low + 2 ^ (p + b) * v
regroup_spilled front low v p b c = omega (
  arith,
  ap (λ (t : ℕ). t * (v / 2 ^ c)) (two_pow-add p (b + c)),
  ap (λ (t : ℕ). 2 ^ p * t * (v / 2 ^ c)) (two_pow-add b c),
  ap (λ (t : ℕ). t * v) (two_pow-add p b),
  ap (λ (t : ℕ). 2 ^ p * 2 ^ b * t) (div-add-mod v (2 ^ c)),
)

checked_shr_lem : (v n k : ℕ) → v < 2 ^ n → n ≤ 64 → checked_shr v k ≡ v / 2 ^ k
checked_shr_lem v n k h few = elim (Bool-cases (ltb k 64)) [
  | inl e ↦ rw e
  | inr e ↦
      rw e (sym (div-eq_of_lt (omega (arith, h, two_pow_mono n k (omega (arith, ltb→le k 64 e))))))
]

module _ (v num_bits : ℕ) (w : BitWriter) (valid : IsValid w) (narrow : v < 2 ^ num_bits) where
  abbrev front : ℕ
  front = from_le (take w.byte_offset w.buffer)

  -- What is left of the 64 bits.
  abbrev spare : ℕ
  spare = 64 - w.bit_offset

  sixty_four : 64 ≡ w.bit_offset + spare
  sixty_four = omega (arith, valid.pending)

  joined_lem : joined v w ≡ w.buffered_values + 2 ^ w.bit_offset * (v % 2 ^ spare)
  joined_lem =
      ap (bit_or w.buffered_values)
        (ap (λ (k : ℕ). v * 2 ^ w.bit_offset % 2 ^ k) sixty_four ∙ shift_mod v w.bit_offset spare)
      ∙ bit_or_disjoint w.bit_offset w.buffered_values (v % 2 ^ spare) valid.buffered
      ∙ omega arith

  joined-lt : joined v w < 2 ^ 64
  joined-lt = omega (
    arith,
    joined_lem,
    add_mul-lt (2 ^ w.bit_offset) (2 ^ spare) w.buffered_values (v % 2 ^ spare) valid.buffered
        (mod-lt v (two_pow_pos spare)),
    two_pow-add w.bit_offset spare,
    ap (λ (k : ℕ). 2 ^ k) sixty_four,
  )

  -- Room in the buffered bits: they alone change.
  module _ (inside : w.bit_offset + num_bits < 64)
      (room : position w + num_bits ≤ 8 * w.max_bytes) where
    abbrev kept : BitWriter
    kept = record w { buffered_values = joined v w; bit_offset = w.bit_offset + num_bits }

    joined_inside : joined v w ≡ w.buffered_values + 2 ^ w.bit_offset * v
    joined_inside = joined_lem ∙ ap (λ (t : ℕ). w.buffered_values + 2 ^ w.bit_offset * t) whole
      where
        whole : v % 2 ^ spare ≡ v
        whole = mod-eq_of_lt (omega (arith, narrow, two_pow_mono num_bits spare (omega arith)))

    put_inside : put_value v num_bits w ≡ ok (true, kept)
    unfolding put_value
    put_inside = ground (arith, div-eq_of_lt narrow)

    kept-Appended : Appended w v num_bits kept
    kept-Appended = record {
      valid = record {
        fits = valid.fits;
        bytes = valid.bytes;
        pending = inside;
        buffered = omega (
          arith,
          joined_inside,
          add_mul-lt (2 ^ w.bit_offset) (2 ^ num_bits) w.buffered_values v valid.buffered narrow,
          two_pow-add w.bit_offset num_bits,
        );
        room = omega arith;
        started = valid.started;
      };
      longer = omega arith;
      value =
          ap (λ (t : ℕ). front + 2 ^ (8 * w.byte_offset) * t) joined_inside
          ∙ regroup front w.buffered_values v (8 * w.byte_offset) w.bit_offset;
      same_room = refl;
      same_start = refl;
      later = omega arith;
    }

  -- No room: the buffered bits fill up and go to the buffer as eight bytes.
  module _ (wide : 64 ≤ w.bit_offset + num_bits) (few : num_bits ≤ 64)
      (room : position w + num_bits ≤ 8 * w.max_bytes) where
    abbrev spilled : BitWriter
    spilled = record w {
      buffer = copied (joined v w) 8 w.buffer w.byte_offset;
      byte_offset = w.byte_offset + 8;
      bit_offset = w.bit_offset + num_bits - 64;
      buffered_values = checked_shr v (num_bits - (w.bit_offset + num_bits - 64));
    }

    in_buffer : w.byte_offset + 8 ≤ length w.buffer
    in_buffer = omega (arith, valid.fits)

    put_spilled : put_value v num_bits w ≡ ok (true, spilled)
    unfolding put_value put_spilling
    put_spilled = ground (
      arith,
      div-eq_of_lt narrow,
      valid.pending,
      memcpy_value_lem (joined v w) 8 w.buffer w.byte_offset in_buffer,
    )

    rest_lem : spilled.buffered_values ≡ v / 2 ^ spare
    rest_lem =
        ap (checked_shr v) (
          let e : num_bits - (w.bit_offset + num_bits - 64) ≡ spare =
            omega (arith, valid.pending) in
          e)
        ∙ checked_shr_lem v num_bits spare narrow few

    rest_fits : v < 2 ^ (spare + (w.bit_offset + num_bits - 64))
    rest_fits = omega (
      arith,
      narrow,
      two_pow_mono num_bits (spare + (w.bit_offset + num_bits - 64)) (omega (arith, valid.pending)),
    )

    spilled_value : written spilled ≡ written w + 2 ^ position w * v
    spilled_value =
        ap₂ (λ (x y : ℕ). x + 2 ^ (8 * (w.byte_offset + 8)) * y)
          (from_le-take-copied (joined v w) 8 w.buffer w.byte_offset in_buffer
            ∙ ap (λ (t : ℕ). front + 2 ^ (8 * w.byte_offset) * t)
                (mod-eq_of_lt joined-lt ∙ joined_lem))
          rest_lem
        ∙ ap
            (λ (t : ℕ).
              front
              + 2 ^ (8 * w.byte_offset) * (w.buffered_values + 2 ^ w.bit_offset * (v % 2 ^ spare))
              + 2 ^ t * (v / 2 ^ spare))
            (omega (arith, sixty_four))
        ∙ regroup_spilled front w.buffered_values v (8 * w.byte_offset) w.bit_offset spare

    spilled-Appended : Appended w v num_bits spilled
    spilled-Appended = record {
      valid = record {
        fits = length-copied (joined v w) 8 w.buffer w.byte_offset in_buffer ∙ valid.fits;
        bytes = copied-IsByte (joined v w) 8 w.buffer w.byte_offset in_buffer valid.bytes;
        pending = omega (arith, valid.pending);
        buffered =
            omega (arith, rest_lem, shift-lt v spare (w.bit_offset + num_bits - 64) rest_fits);
        room = omega arith;
        started = omega (arith, valid.started);
      };
      longer = omega arith;
      value = spilled_value;
      same_room = refl;
      same_start = refl;
      later = omega arith;
    }

put_full :
    (v num_bits : ℕ) (w : BitWriter)
    → v < 2 ^ num_bits
    → num_bits ≤ 64
    → 8 * w.max_bytes < position w + num_bits
    → put_value v num_bits w ≡ ok (false, w)
unfolding put_value
put_full v num_bits w narrow few full = ground (arith, div-eq_of_lt narrow)

-- On a valid writer, `put_value` of a value that fits its width, of 64 bits at most, never panics.
-- With room it appends the value to the bit string; without room it answers `false` and changes
-- nothing.
pub put_value_lem :
    (v num_bits : ℕ) (w : BitWriter)
    → IsValid w
    → v < 2 ^ num_bits
    → num_bits ≤ 64
    → (if ltb (8 * w.max_bytes) (position w + num_bits)
        then put_value v num_bits w ≡ ok (false, w)
        else (w' : BitWriter) × (put_value v num_bits w ≡ ok (true, w')) × Appended w v num_bits w')
put_value_lem v num_bits w valid narrow few =
    elim (Bool-cases (ltb (8 * w.max_bytes) (position w + num_bits))) [
      | inl full ↦ rw full (put_full v num_bits w narrow few (ltb→lt _ _ full))
      | inr free ↦ rw free (elim (Bool-cases (leb 64 (w.bit_offset + num_bits))) [
        | inl wide ↦
            let b = leb→le _ _ wide in
            let room = ltb→le _ _ free in
            (
              spilled v num_bits w valid narrow b few room,
              put_spilled v num_bits w valid narrow b few room,
              spilled-Appended v num_bits w valid narrow b few room,
            )
        | inr inside ↦
            let b : w.bit_offset + num_bits < 64 = ground arith in
            let room = ltb→le _ _ free in
            (
              kept v num_bits w valid narrow b room,
              put_inside v num_bits w valid narrow b room,
              kept-Appended v num_bits w valid narrow b room,
            )
      ])
    ]
