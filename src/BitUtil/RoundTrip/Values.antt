-- ===== src/BitUtil/RoundTrip/Values.antt =====
-- src/util/bit_util.rs: values of any widths, written by `put_value` and read by `get_value`.
use parquet_rs.BitUtil.Writer.{BitWriter, put_value, consume}
use parquet_rs.BitUtil.Writer.Invariant
use parquet_rs.BitUtil.Writer.PutValue.{Appended, put_value_lem}
use parquet_rs.BitUtil.Writer.Whole.{new-IsValid, consume_lem}
use parquet_rs.BitUtil.Writer
use parquet_rs.BitUtil.Reader.{BitReader, get_value}
use parquet_rs.BitUtil.Reader
use parquet_rs.BitUtil.Reader.Position
use parquet_rs.BitUtil.Reader.GetValue.{field_at, get_value_lem}
use parquet_rs.Prelude.{
  ℕ, ◌+◌, ◌*◌, ◌/◌, ◌%◌, ◌^◌, ◌≤◌, ◌<◌, List, [], ◌∷◌, map, length, All, Bool, true, false, ◌&&◌,
  Option, some, Outcome, ok, ◌>>=◌, ltb, ◌≡◌, refl, sym, ap, ◌∙◌, arith, two_pow-add, add_mul_div,
  add_mul_mod,
}
use native.Mathlib.Nat.{div-div-eq-div-mul}
use parquet_rs.Prelude.Bytes.{from_le}

-- A value and its width.
pub record Field : Type 0 where
  pub value : ℕ
  pub width : ℕ

abbrev pub Narrow : Field → Type 0
Narrow f = (f.value < 2 ^ f.width) × (f.width ≤ 64)

-- One `put_value` after the other, and whether all of them succeeded.
abbrev pub put_values : List Field → BitWriter → Outcome (Bool × BitWriter)
put_values [] w = ok (true, w)
put_values (f ∷ fs) w = do
  (done, w') ← put_value f.value f.width w
  (rest, w'') ← put_values fs w'
  ok (done && rest, w'')

-- One `get_value` of a `u64` after the other.
abbrev pub get_values : List Field → BitReader → Outcome (List (Option ℕ) × BitReader)
get_values [] r = ok ([], r)
get_values (f ∷ fs) r = do
  (v, r') ← get_value 8 f.width r
  (rest, r'') ← get_values fs r'
  ok (v ∷ rest, r'')

abbrev pub total_width : List Field → ℕ
total_width [] = 0
total_width (f ∷ fs) = f.width + total_width fs

-- The fields as one number, the first one lowest.
abbrev spelled : List Field → ℕ
spelled [] = 0
spelled (f ∷ fs) = f.value + 2 ^ f.width * spelled fs

put_one :
    (f : Field) (w : BitWriter) (m : ℕ)
    → Invariant.IsValid w
    → Narrow f
    → Invariant.position w + (f.width + m) ≤ 8 * w.max_bytes
    → (w' : BitWriter) × (put_value f.value f.width w ≡ ok (true, w'))
      × Appended w f.value f.width w'
put_one f w m valid narrow room =
    let free : ltb (8 * w.max_bytes) (Invariant.position w + f.width) ≡ false = ground arith in
    rw free at (put_value_lem f.value f.width w valid narrow.0 narrow.1)

put_values_lem :
    (fs : List Field) (w : BitWriter)
    → Invariant.IsValid w
    → All Narrow fs
    → Invariant.position w + total_width fs ≤ 8 * w.max_bytes
    → (w' : BitWriter) × (put_values fs w ≡ ok (true, w'))
      × Invariant.IsValid w'
      × (Invariant.position w' ≡ Invariant.position w + total_width fs)
      × (Invariant.written w' ≡ Invariant.written w + 2 ^ Invariant.position w * spelled fs)
put_values_lem [] w valid narrow room = (w, refl, valid, omega arith, omega arith)
put_values_lem (f ∷ fs) w valid narrow room =
    let (w1, e, a) = put_one f w (total_width fs) valid narrow.0 room in
    let (w2, e2, valid2, at2, is2) =
      put_values_lem fs w1 a.valid narrow.1 (omega (arith, a.longer, a.same_room)) in
    (
      w2,
      rw (e, e2) refl,
      valid2,
      omega (arith, a.longer, at2),
      omega (
        arith,
        is2,
        a.value,
        regroup (Invariant.position w) f.width f.value (spelled fs),
        ap (λ (p : ℕ). 2 ^ p * spelled fs) a.longer,
      ),
    )
  where
    regroup : (p n v s : ℕ) → 2 ^ p * v + 2 ^ (p + n) * s ≡ 2 ^ p * (v + 2 ^ n * s)
    regroup p n v s = omega (arith, ap (λ (t : ℕ). t * s) (two_pow-add p n))

get_one :
    (f : Field) (r : BitReader) (m : ℕ)
    → Position.IsValid r
    → Narrow f
    → Position.position r + (f.width + m) ≤ 8 * r.total_bytes
    → (r' : BitReader) × (get_value 8 f.width r
        ≡ ok (some (field_at r.buffer (Position.position r) f.width), r'))
      × Position.IsValid r'
      × (Position.position r' ≡ Position.position r + f.width)
      × (r'.buffer ≡ r.buffer)
get_one f r m valid narrow room =
    let enough : ltb (8 * r.total_bytes) (Position.position r + f.width) ≡ false = ground arith in
    rw enough at (get_value_lem 8 f.width r valid narrow.1 (omega (arith, narrow)))

-- The lowest field, and the others.
module _ (f : Field) (fs : List Field) (narrow : f.value < 2 ^ f.width) (x p : ℕ)
    (h : x / 2 ^ p ≡ spelled (f ∷ fs)) where
  first_field : x / 2 ^ p % 2 ^ f.width ≡ f.value
  first_field = rw h (add_mul_mod (2 ^ f.width) f.value (spelled fs) narrow)

  other_fields : x / 2 ^ (p + f.width) ≡ spelled fs
  other_fields =
      ap (λ (t : ℕ). x / t) (two_pow-add p f.width)
      ∙ sym (div-div-eq-div-mul x (2 ^ p) (2 ^ f.width))
      ∙ ap (λ (t : ℕ). t / 2 ^ f.width) h
      ∙ add_mul_div (2 ^ f.width) f.value (spelled fs) narrow

get_values_lem :
    (fs : List Field) (r : BitReader)
    → Position.IsValid r
    → All Narrow fs
    → Position.position r + total_width fs ≤ 8 * r.total_bytes
    → from_le r.buffer / 2 ^ Position.position r ≡ spelled fs
    → (r' : BitReader) × (get_values fs r ≡ ok (map (λ f. some f.value) fs, r'))
get_values_lem [] r valid narrow room h = (r, refl)
get_values_lem (f ∷ fs) r valid narrow room h =
    let (r1, e, valid1, at1, same) = get_one f r (total_width fs) valid narrow.0 room in
    let (r2, e2) =
      get_values_lem fs r1 valid1 narrow.1
        (omega (arith, at1, valid.fits, valid1.fits, ap length same))
        (rw (same, at1)
          (other_fields f fs narrow.0.0 (from_le r.buffer) (Position.position r) h)) in
    (
      r2,
      rw (e, e2)
          (ap (λ (v : ℕ). ok (some v ∷ map (λ f. some f.value) fs, r2))
            (first_field f fs narrow.0.0 (from_le r.buffer) (Position.position r) h)),
    )

-- Whatever fits the buffer is read back: values that fit their widths, of 64 bits at most, written
-- by `put_value` to a new writer, all succeed; a new reader of the bytes that `consume` hands over
-- returns the same values, asked for the same widths. Nothing panics.
pub values_round_trip :
    (fs : List Field) (max_bytes : ℕ)
    → All Narrow fs
    → total_width fs ≤ 8 * max_bytes
    → (w : BitWriter) × (bytes : List ℕ) × (r : BitReader) × (r' : BitReader) × (put_values fs
          (Writer.new max_bytes)
        ≡ ok (true, w))
      × (consume w ≡ ok bytes)
      × (Reader.new bytes ≡ ok r)
      × (get_values fs r ≡ ok (map (λ f. some f.value) fs, r'))
unfolding Writer.new from_le
values_round_trip fs max_bytes narrow room =
    let (w, put, valid, at_w, is_w) =
      put_values_lem fs (Writer.new max_bytes) (new-IsValid max_bytes) narrow
        (omega (arith, room)) in
    let (bytes, taken, are_bytes, many, number) = consume_lem w valid in
    let (r, opened, valid_r, same, first) = Position.new-IsValid bytes are_bytes in
    let (r', got) =
      get_values_lem fs r valid_r narrow
        (omega (arith, first, valid_r.fits, ap length same, many, at_w, room))
        (rw (same, first) (omega (arith, number, is_w))) in
    (w, bytes, r, r', put, taken, opened, got)
