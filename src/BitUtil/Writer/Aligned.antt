-- ===== src/BitUtil/Writer/Aligned.antt =====
-- src/util/bit_util.rs: the operations of `BitWriter` that end on a byte boundary: `flush`, `skip`
-- and `put_aligned`.
use parquet_rs.BitUtil.Writer.{BitWriter, flush, skip, put_aligned}
use parquet_rs.BitUtil.Writer.Invariant.{
  IsValid, position, written, copied, memcpy_value_lem, length-copied, copied-IsByte,
  from_le-take-copied,
}
use parquet_rs.BitUtil.Scalar.{ceil}
use parquet_rs.BitUtil.Scalar.Laws.{ceil_eight}
use parquet_rs.Prelude.{
  ℕ, ◌+◌, ◌*◌, ◌/◌, ◌%◌, ◌^◌, ◌≤◌, ◌<◌, length, take, true, false, Bool-cases, inl, inr, none, some,
  ok, ltb, ltb→lt, ltb→le, if◌then◌else◌, ◌≡◌, refl, ap, ◌∙◌, arith, two_pow_mono,
}
use parquet_rs.Prelude.Bytes.{from_le}
use native.Mathlib.Nat.{mod-eq_of_lt}

-- The writer after `flush`.
abbrev pub flushed : BitWriter → BitWriter
flushed w = record w {
  buffer = copied w.buffered_values (ceil w.bit_offset 8) w.buffer w.byte_offset;
  buffered_values = 0;
  bit_offset = 0;
  byte_offset = w.byte_offset + ceil w.bit_offset 8;
}

module _ (w : BitWriter) (valid : IsValid w) where
  in_buffer : w.byte_offset + ceil w.bit_offset 8 ≤ length w.buffer
  in_buffer = omega (arith, valid.fits, valid.room, ceil_eight w.bit_offset)

  pub flush_lem : flush w ≡ ok (flushed w)
  unfolding flush
  flush_lem = ground (
    arith,
    in_buffer,
    valid.fits,
    memcpy_value_lem w.buffered_values (ceil w.bit_offset 8) w.buffer w.byte_offset in_buffer,
  )

  pub flushed-IsValid : IsValid (flushed w)
  flushed-IsValid = record {
    fits =
        length-copied w.buffered_values (ceil w.bit_offset 8) w.buffer w.byte_offset in_buffer
        ∙ valid.fits;
    bytes =
        copied-IsByte w.buffered_values (ceil w.bit_offset 8) w.buffer w.byte_offset in_buffer
          valid.bytes;
    pending = omega arith;
    buffered = omega arith;
    room = omega (arith, in_buffer, valid.fits);
    started = omega (arith, valid.started);
  }

  pub position-flushed : position (flushed w) ≡ (position w + 7) / 8 * 8
  position-flushed = omega (arith, ceil_eight w.bit_offset)

  -- The padding bits are zero, so flushing does not change the number.
  pub written-flushed : written (flushed w) ≡ written w
  written-flushed =
      ap (λ (t : ℕ). t + 2 ^ (8 * (w.byte_offset + ceil w.bit_offset 8)) * 0)
        (from_le-take-copied w.buffered_values (ceil w.bit_offset 8) w.buffer w.byte_offset
            in_buffer
          ∙ ap (λ (t : ℕ). from_le (take w.byte_offset w.buffer) + 2 ^ (8 * w.byte_offset) * t)
              (mod-eq_of_lt small))
      ∙ omega arith
    where
      small : w.buffered_values < 2 ^ (8 * ceil w.bit_offset 8)
      small = omega (
        arith,
        valid.buffered,
        two_pow_mono w.bit_offset (8 * ceil w.bit_offset 8)
            (omega (arith, ceil_eight w.bit_offset)),
      )

-- `flush` never panics on a valid writer. It pads the bit string with zeros to a whole byte.
pub flush_pads :
    (w : BitWriter)
    → IsValid w
    → (w' : BitWriter) × (flush w ≡ ok w')
      × IsValid w'
      × (w'.bit_offset ≡ 0)
      × (position w' ≡ (position w + 7) / 8 * 8)
      × (written w' ≡ written w)
flush_pads w valid = (
  flushed w,
  flush_lem w valid,
  flushed-IsValid w valid,
  refl,
  position-flushed w valid,
  written-flushed w valid,
)

-- The byte offset after `flush`.
abbrev pub aligned : BitWriter → ℕ
aligned w = w.byte_offset + ceil w.bit_offset 8

abbrev pub skipped : ℕ → BitWriter → BitWriter
skipped num_bytes w = record (flushed w) { byte_offset = aligned w + num_bytes }

module _ (num_bytes : ℕ) (w : BitWriter) (valid : IsValid w) where
  pub skip_full : w.max_bytes < aligned w + num_bytes → skip num_bytes w ≡ ok (none, flushed w)
  unfolding skip
  skip_full full = ground (arith, flush_lem w valid, in_buffer w valid, valid.fits)

  pub skip_room :
      aligned w + num_bytes ≤ w.max_bytes
      → skip num_bytes w ≡ ok (some (aligned w), skipped num_bytes w)
  unfolding skip
  skip_room room = ground (arith, flush_lem w valid, in_buffer w valid, valid.fits)

-- The writer after a `put_aligned` that had room.
abbrev pub put_bytes : ℕ → ℕ → BitWriter → BitWriter
put_bytes val num_bytes w = record (flushed w) {
  buffer = copied val num_bytes (flushed w).buffer (aligned w);
  byte_offset = aligned w + num_bytes;
}

module _ (val num_bytes : ℕ) (w : BitWriter) (valid : IsValid w) where
  pub put_aligned_full :
      w.max_bytes < aligned w + num_bytes → put_aligned val num_bytes w ≡ ok (false, flushed w)
  unfolding put_aligned
  put_aligned_full full = rw (skip_full num_bytes w valid full)

  module _ (room : aligned w + num_bytes ≤ w.max_bytes) where
    fits : aligned w + num_bytes ≤ length (flushed w).buffer
    fits = omega (arith, room, (flushed-IsValid w valid).fits)

    pub put_aligned_room : put_aligned val num_bytes w ≡ ok (true, put_bytes val num_bytes w)
    unfolding put_aligned
    put_aligned_room = rw (
      skip_room num_bytes w valid room,
      memcpy_value_lem val num_bytes (flushed w).buffer (aligned w) fits,
    )

    pub put_bytes-IsValid : IsValid (put_bytes val num_bytes w)
    put_bytes-IsValid = record {
      fits =
          length-copied val num_bytes (flushed w).buffer (aligned w) fits
          ∙ (flushed-IsValid w valid).fits;
      bytes =
          copied-IsByte val num_bytes (flushed w).buffer (aligned w) fits
            (flushed-IsValid w valid).bytes;
      pending = omega arith;
      buffered = omega arith;
      room = omega (arith, room);
      started = omega (arith, valid.started);
    }

    pub written-put_bytes :
        written (put_bytes val num_bytes w)
        ≡ written w + 2 ^ (8 * aligned w) * (val % 2 ^ (8 * num_bytes))
    written-put_bytes = omega (
      arith,
      from_le-take-copied val num_bytes (flushed w).buffer (aligned w) fits,
      written-flushed w valid,
    )

-- `put_aligned` never panics on a valid writer. With room it appends the low bytes of the value
-- behind the zero padding; without room it answers `false`, and has only padded.
pub put_aligned_lem :
    (val num_bytes : ℕ) (w : BitWriter)
    → IsValid w
    → (if ltb w.max_bytes (aligned w + num_bytes)
        then put_aligned val num_bytes w ≡ ok (false, flushed w)
        else (w' : BitWriter) × (put_aligned val num_bytes w ≡ ok (true, w'))
          × IsValid w'
          × (position w' ≡ (position w + 7) / 8 * 8 + 8 * num_bytes)
          × (written w' ≡ written w + 2 ^ ((position w + 7) / 8 * 8) * (val % 2 ^ (8 * num_bytes))))
put_aligned_lem val num_bytes w valid =
    elim (Bool-cases (ltb w.max_bytes (aligned w + num_bytes))) [
      | inl full ↦ rw full (put_aligned_full val num_bytes w valid (ltb→lt _ _ full))
      | inr free ↦
          let room = ltb→le _ _ free in
          rw free (
            put_bytes val num_bytes w,
            put_aligned_room val num_bytes w valid room,
            put_bytes-IsValid val num_bytes w valid room,
            omega (arith, ceil_eight w.bit_offset),
            written-put_bytes val num_bytes w valid room
                ∙ ap (λ (p : ℕ). written w + 2 ^ p * (val % 2 ^ (8 * num_bytes)))
                    (omega (arith, ceil_eight w.bit_offset)),
          )
    ]
