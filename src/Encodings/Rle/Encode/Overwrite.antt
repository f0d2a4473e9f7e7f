-- ===== src/Encodings/Rle/Encode/Overwrite.antt =====
-- src/encodings/rle.rs: the byte of a buffer that `put_aligned_offset` overwrites.
use parquet_rs.BitUtil.Writer.{BitWriter, put_aligned_offset}
use parquet_rs.BitUtil.Writer.Invariant.{
  IsValid, position, written, copied, memcpy_value_lem, length-copied, copied-IsByte,
}
use parquet_rs.Prelude.{
  ℕ, zero, suc, ◌+◌, ◌-◌, ◌*◌, ◌/◌, ◌%◌, ◌^◌, ◌≤◌, ◌<◌, List, [], ◌∷◌, ◌++◌, length, length-take,
  take, drop, take-append_high, All, All-take, true, ok, ◌≡◌, refl, sym, ap, ap₂, ◌∙◌, arith,
  two_pow-add, add_mul_div, add_mul_mod, le→ltb,
}
use parquet_rs.Prelude.Bytes.{
  IsByte, from_le, to_le, from_le-append, byte_pow-eq-two_pow, from_le-lt,
}

-- The byte at a place, between those before it and those after it.
pub split_at :
    (p : ℕ) (bs : List ℕ)
    → p < length bs
    → All IsByte bs
    → (b : ℕ) × (b < 256) × (bs ≡ take p bs ++ (b ∷ drop (suc p) bs))
split_at p [] h are_bytes = absurd (omega (arith, h))
split_at zero (b ∷ bs) h are_bytes = (b, are_bytes.0, refl)
split_at (suc p) (b ∷ bs) h are_bytes =
    let (c, low, e) = split_at p bs (omega (arith, h)) are_bytes.1 in (c, low, ap (λ l. b ∷ l) e)

-- The number of some bytes, the one behind `front` apart.
pub from_le-take-cons :
    (front rest : List ℕ) (c n : ℕ)
    → length front + 1 ≤ n
    → from_le (take n (front ++ (c ∷ rest)))
      ≡ from_le front
        + 2 ^ (8 * length front) * (c + 256 * from_le (take (n - length front - 1) rest))
unfolding from_le
from_le-take-cons front rest c n h =
    let more : n - length front ≡ suc (n - length front - 1) = omega (arith, h) in
    ap from_le (take-append_high n front (c ∷ rest) (omega (arith, h)))
    ∙ from_le-append front (take (n - length front) (c ∷ rest))
    ∙ ap₂ (λ (x : ℕ) (k : ℕ). from_le front + x * from_le (take k (c ∷ rest)))
        (byte_pow-eq-two_pow (length front)) more

-- The same with the bits behind the bytes.
pub split_value :
    (front rest : List ℕ) (c n bits : ℕ)
    → length front + 1 ≤ n
    → from_le (take n (front ++ (c ∷ rest))) + 2 ^ (8 * n) * bits
      ≡ from_le front
        + 2 ^ (8 * length front)
          * (c
              + 256
                * (from_le (take (n - length front - 1) rest)
                    + 2 ^ (8 * (n - length front - 1)) * bits))
split_value front rest c n bits h =
    let m = n - length front - 1 in
    let whole : 2 ^ (8 * n) ≡ 2 ^ (8 * length front) * (256 * 2 ^ (8 * m)) =
      ap (λ (k : ℕ). 2 ^ k) (let e : 8 * n ≡ 8 * length front + (8 + 8 * m) = omega (arith, h) in e)
      ∙ two_pow-add (8 * length front) (8 + 8 * m)
      ∙ ap (λ (t : ℕ). 2 ^ (8 * length front) * t) (two_pow-add 8 (8 * m)) in
    ap₂ (λ (x y : ℕ). x + y * bits) (from_le-take-cons front rest c n h) whole ∙ omega arith

-- Two ways to take a number apart at the same place agree.
same_parts : (c a b x y : ℕ) → a < c → b < c → a + c * x ≡ b + c * y → (a ≡ b) × (x ≡ y)
same_parts c a b x y h k e = (
  sym (add_mul_mod c a x h) ∙ ap (λ (t : ℕ). t % c) e ∙ add_mul_mod c b y k,
  sym (add_mul_div c a x h) ∙ ap (λ (t : ℕ). t / c) e ∙ add_mul_div c b y k,
)

module _ (p ind : ℕ) (w : BitWriter) (valid : IsValid w) (inside : p + 1 ≤ w.byte_offset)
    (low : ind < 256) where
  fits : p + 1 ≤ length w.buffer
  fits = omega (arith, inside, valid.fits, valid.room)

  new_buffer : copied ind 1 w.buffer p ≡ take p w.buffer ++ (ind ∷ drop (suc p) w.buffer)
  unfolding to_le
  new_buffer =
      ap₂ (λ (c k : ℕ). take p w.buffer ++ (c ∷ drop k w.buffer))
        (let e : ind % 256 ≡ ind = omega (arith, low) in e)
        (let e : p + 1 ≡ suc p = omega arith in e)

  size : length (take p w.buffer) ≡ p
  size = omega (arith, length-take p w.buffer, fits)

  -- The bits beyond the byte, as one number.
  beyond : ℕ
  beyond =
      from_le (take (w.byte_offset - length (take p w.buffer) - 1) (drop (suc p) w.buffer))
      + 2 ^ (8 * (w.byte_offset - length (take p w.buffer) - 1)) * w.buffered_values

  with_byte :
      (buffer : List ℕ) (c : ℕ)
      → buffer ≡ take p w.buffer ++ (c ∷ drop (suc p) w.buffer)
      → from_le (take w.byte_offset buffer) + 2 ^ (8 * w.byte_offset) * w.buffered_values
        ≡ from_le (take p w.buffer) + 2 ^ (8 * p) * (c + 256 * beyond)
  unfolding beyond
  with_byte buffer c e =
      ap (λ l. from_le (take w.byte_offset l) + 2 ^ (8 * w.byte_offset) * w.buffered_values) e
      ∙ split_value (take p w.buffer) (drop (suc p) w.buffer) c w.byte_offset w.buffered_values
          (omega (arith, size, inside))
      ∙ ap (λ (k : ℕ). from_le (take p w.buffer) + 2 ^ (8 * k) * (c + 256 * beyond)) size

  front-lt : from_le (take p w.buffer) < 2 ^ (8 * p)
  front-lt = omega (
    arith,
    from_le-lt (take p w.buffer) (All-take IsByte p w.buffer valid.bytes),
    ap (λ (k : ℕ). 256 ^ k) size,
    byte_pow-eq-two_pow p,
  )

  overwritten :
      (front reserved high : ℕ)
      → front < 2 ^ (8 * p)
      → reserved < 256
      → written w ≡ front + 2 ^ (8 * p) * (reserved + 256 * high)
      → from_le (take w.byte_offset (copied ind 1 w.buffer p))
          + 2 ^ (8 * w.byte_offset) * w.buffered_values
        ≡ front + 2 ^ (8 * p) * (ind + 256 * high)
  overwritten front reserved high f r held =
      let (b, small, e) = split_at p w.buffer (omega (arith, fits)) valid.bytes in
      let (same_front, rest) =
        same_parts (2 ^ (8 * p)) (from_le (take p w.buffer)) front (b + 256 * beyond)
          (reserved + 256 * high) front-lt f (sym (with_byte w.buffer b e) ∙ held) in
      let (same_byte, same_high) = same_parts 256 b reserved beyond high small r rest in
      with_byte (copied ind 1 w.buffer p) ind new_buffer
      ∙ ap₂ (λ (x y : ℕ). x + 2 ^ (8 * p) * (ind + 256 * y)) same_front same_high

  pub overwrite_lem :
      (front reserved high : ℕ)
      → front < 2 ^ (8 * p)
      → reserved < 256
      → written w ≡ front + 2 ^ (8 * p) * (reserved + 256 * high)
      → (w' : BitWriter) × (put_aligned_offset ind 1 p w ≡ ok (true, w'))
        × IsValid w'
        × (position w' ≡ position w)
        × (written w' ≡ front + 2 ^ (8 * p) * (ind + 256 * high))
        × (w'.max_bytes ≡ w.max_bytes)
  unfolding put_aligned_offset
  overwrite_lem front reserved high f r held = (
    record w { buffer = copied ind 1 w.buffer p },
    rw
        (
          le→ltb w.max_bytes (1 + p) (omega (arith, fits, valid.fits)),
          memcpy_value_lem ind 1 w.buffer p fits,
        )
        refl,
    record {
      fits = length-copied ind 1 w.buffer p fits ∙ valid.fits;
      bytes = copied-IsByte ind 1 w.buffer p fits valid.bytes;
      pending = valid.pending;
      buffered = valid.buffered;
      room = valid.room;
      started = valid.started;
    },
    refl,
    overwritten front reserved high f r held,
    refl,
  )
