-- ===== src/Encodings/Rle/Encode/Holds.antt =====
-- src/encodings/rle.rs: what the encoder's writer holds, between two runs and inside a bit-packed
-- run, whose indicator byte is reserved before it is known.
use parquet_rs.Encodings.Rle.Format.{spell}
use parquet_rs.BitUtil.Writer.{BitWriter, consume, skip, put_value, put_aligned_offset}
use parquet_rs.BitUtil.Writer.Invariant.{IsValid, position, written}
use parquet_rs.BitUtil.Writer.Aligned.{
  flushed, aligned, skipped, skip_room, flushed-IsValid, written-flushed,
}
use parquet_rs.BitUtil.Writer.PutValue.{put_value_lem}
use parquet_rs.BitUtil.Writer.Whole.{consume_lem}
use parquet_rs.BitUtil.Vlq.Put.{Put}
use parquet_rs.BitUtil.Scalar.Laws.{ceil_eight}
use parquet_rs.Encodings.Rle.Encoder.{put_literals}
use parquet_rs.Encodings.Rle.Encode.Overwrite.{split_at, from_le-take-cons, overwrite_lem}
use parquet_rs.Prelude.{
  ◌-◌, length-take, append_assoc, append_nil, ℕ, suc, ◌+◌, ◌*◌, ◌^◌, ◌≤◌, ◌<◌, List, [], ◌∷◌, ◌++◌,
  length, length-append, take, drop, All, true, ok, some, ◌≡◌, refl, sym, ap, ap₂, ◌∙◌, subst,
  arith, two_pow-add, le→ltb, if◌then◌else◌, ltb,
}
use parquet_rs.Prelude.Bytes.{
  IsByte, from_le, from_le-append, from_le-injective, byte_pow-eq-two_pow, from_le-lt,
}

-- Exactly these bytes.
pub record Holds (bytes : List ℕ) (w : BitWriter) : Type 0 where
  pub valid : IsValid w
  pub place : position w ≡ 8 * length bytes
  pub held : written w ≡ from_le bytes

-- These bytes, a byte that is reserved, and values of `n` bits.
pub record HoldsOpen (n : ℕ) (bytes : List ℕ) (vs : List ℕ) (w : BitWriter) : Type 0 where
  pub valid : IsValid w
  pub reserved : ℕ
  pub is_byte : reserved < 256
  pub passed : length bytes + 1 ≤ w.byte_offset
  pub place : position w ≡ 8 * (length bytes + 1) + n * length vs
  pub held : written w ≡ from_le bytes + 2 ^ (8 * length bytes) * (reserved + 256 * spell n vs)

pub Holds-consume :
    (bytes : List ℕ) (w : BitWriter) → All IsByte bytes → Holds bytes w → consume w ≡ ok bytes
Holds-consume bytes w are_bytes h =
    let (out, e, out_bytes, size, same) = consume_lem w h.valid in
    e
    ∙ ap ok (
        from_le-injective out bytes out_bytes are_bytes (omega (arith, size, h.place))
          (same ∙ h.held))

pub Holds-Put :
    (bytes more : List ℕ) (w w' : BitWriter)
    → Holds bytes w
    → Put more w w'
    → length bytes + length more ≤ w.max_bytes
    → Holds (bytes ++ more) w'
Holds-Put bytes more w w' h p room =
    let at : aligned w ≡ length bytes = omega (arith, ceil_eight w.bit_offset, h.place) in
    let (offset, value) = p.appended (omega (arith, at, room)) in
    record {
      valid = p.valid;
      place = omega (arith, offset, p.full_bytes, at, length-append bytes more);
      held =
          value
          ∙ ap₂ (λ (x y : ℕ). x + y * from_le more) h.held
              (ap (λ (k : ℕ). 2 ^ (8 * k)) at ∙ sym (byte_pow-eq-two_pow (length bytes)))
          ∙ sym (from_le-append bytes more);
    }

-- One more byte of a list.
from_le-take_suc :
    (n : ℕ) (bs : List ℕ)
    → n < length bs
    → All IsByte bs
    → (b : ℕ) × (b < 256) × (from_le (take (n + 1) bs) ≡ from_le (take n bs) + 2 ^ (8 * n) * b)
unfolding from_le
from_le-take_suc n bs h are_bytes =
    let (b, low, e) = split_at n bs h are_bytes in
    let size : length (take n bs) ≡ n = omega (arith, length-take n bs, h) in
    let none_left : n + 1 - length (take n bs) - 1 ≡ 0 = omega (arith, size) in
    (
      b,
      low,
      ap (λ l. from_le (take (n + 1) l)) e
          ∙ from_le-take-cons (take n bs) (drop (suc n) bs) b (n + 1) (omega (arith, size))
          ∙ ap₂
              (λ (k m : ℕ).
                from_le (take n bs) + 2 ^ (8 * k) * (b + 256 * from_le (take m (drop (suc n) bs))))
              size none_left
          ∙ omega arith,
    )

regrouped :
    (front b at : ℕ)
    → front + 2 ^ (8 * at) * b + 2 ^ (8 * (at + 1)) * 0
      ≡ front + 2 ^ (8 * at) * 0 + 2 ^ (8 * at) * (b + 256 * 0)
regrouped front b at = omega arith

-- `skip(1)` between two runs.
pub reserve_lem :
    (n : ℕ) (bytes : List ℕ) (w : BitWriter)
    → Holds bytes w
    → length bytes + 1 ≤ w.max_bytes
    → (w' : BitWriter) × (skip 1 w ≡ ok (some (length bytes), w'))
      × HoldsOpen n bytes [] w'
      × (w'.max_bytes ≡ w.max_bytes)
reserve_lem n bytes w h room =
    let at : aligned w ≡ length bytes = omega (arith, ceil_eight w.bit_offset, h.place) in
    let flat = flushed-IsValid w h.valid in
    let fits : length bytes < length (flushed w).buffer = omega (arith, flat.fits, room) in
    let (b, low, e) =
      from_le-take_suc (aligned w) (flushed w).buffer (omega (arith, at, fits)) flat.bytes in
    (
      skipped 1 w,
      skip_room 1 w h.valid (omega (arith, at, room)) ∙ ap (λ (k : ℕ). ok (some k, skipped 1 w)) at,
      record {
        valid = record {
          fits = flat.fits;
          bytes = flat.bytes;
          pending = flat.pending;
          buffered = flat.buffered;
          room = omega (arith, at, room);
          started = omega (arith, flat.started);
        };
        reserved = b;
        is_byte = low;
        passed = omega (arith, at);
        place = omega (arith, at);
        held =
            ap (λ (t : ℕ). t + 2 ^ (8 * (aligned w + 1)) * 0) e
            ∙ regrouped (from_le (take (aligned w) (flushed w).buffer)) b (aligned w)
            ∙ ap₂ (λ (x k : ℕ). x + 2 ^ (8 * k) * (b + 256 * 0))
                (written-flushed w h.valid ∙ h.held) at;
      },
      refl,
    )

pub spell-append :
    (n : ℕ) (xs ys : List ℕ) → spell n (xs ++ ys) ≡ spell n xs + 2 ^ (n * length xs) * spell n ys
spell-append n [] ys =
    omega (arith, ap (λ (k : ℕ). 2 ^ k * spell n ys) (let e : n * 0 ≡ 0 = omega arith in e))
spell-append n (x ∷ xs) ys =
    let power : 2 ^ (n * suc (length xs)) ≡ 2 ^ n * 2 ^ (n * length xs) =
      ap (λ (k : ℕ). 2 ^ k) (let e : n * suc (length xs) ≡ n + n * length xs = omega arith in e)
      ∙ two_pow-add n (n * length xs) in
    ap (λ (t : ℕ). x + 2 ^ n * t) (spell-append n xs ys)
    ∙ omega (arith, ap (λ (t : ℕ). t * spell n ys) power)

regroup_one :
    (front e r s p x : ℕ)
    → front + e * (r + 256 * s) + e * (256 * p) * x ≡ front + e * (r + 256 * (s + p * x))
regroup_one front e r s p x = omega arith

-- One more value behind the reserved byte.
one_more :
    (n front reserved : ℕ) (at : ℕ) (vs : List ℕ) (x : ℕ)
    → front + 2 ^ (8 * at) * (reserved + 256 * spell n vs) + 2 ^ (8 * (at + 1) + n * length vs) * x
      ≡ front + 2 ^ (8 * at) * (reserved + 256 * spell n (vs ++ x ∷ []))
one_more n front reserved at vs x =
    let power : 2 ^ (8 * (at + 1) + n * length vs) ≡ 2 ^ (8 * at) * (256 * 2 ^ (n * length vs)) =
      ap (λ (k : ℕ). 2 ^ k)
        (let e : 8 * (at + 1) + n * length vs ≡ 8 * at + (8 + n * length vs) = omega arith in e)
      ∙ two_pow-add (8 * at) (8 + n * length vs)
      ∙ ap (λ (t : ℕ). 2 ^ (8 * at) * t) (two_pow-add 8 (n * length vs)) in
    ap (λ (t : ℕ). front + 2 ^ (8 * at) * (reserved + 256 * spell n vs) + t * x) power
    ∙ regroup_one front (2 ^ (8 * at)) reserved (spell n vs) (2 ^ (n * length vs)) x
    ∙ ap (λ (t : ℕ). front + 2 ^ (8 * at) * (reserved + 256 * t))
        (ap (λ (t : ℕ). spell n vs + 2 ^ (n * length vs) * t)
            (let e : x ≡ x + 2 ^ n * 0 = omega arith in e)
          ∙ sym (spell-append n vs (x ∷ [])))

pub if_room : (P Q : Type 0) (m k : ℕ) → k ≤ 8 * m → (if ltb (8 * m) k then P else Q) → Q
if_room P Q m k h = rw (le→ltb (8 * m) k h) (λ q. q)

put_one :
    (n : ℕ) (bytes vs : List ℕ) (x : ℕ) (w : BitWriter)
    → n ≤ 64
    → x < 2 ^ n
    → HoldsOpen n bytes vs w
    → 8 * (length bytes + 1) + n * (length vs + 1) ≤ 8 * w.max_bytes
    → (w' : BitWriter) × (put_value x n w ≡ ok (true, w'))
      × (HoldsOpen n bytes (vs ++ x ∷ []) w' × (w'.max_bytes ≡ w.max_bytes))
put_one n bytes vs x w narrow small h room =
    let (w', put, a) =
      if_room _ _ w.max_bytes (position w + n) (omega (arith, h.place, room))
        (put_value_lem x n w h.valid small narrow) in
    (
      w',
      put,
      (
        record {
          valid = a.valid;
          reserved = h.reserved;
          is_byte = h.is_byte;
          passed = omega (arith, h.passed, a.later);
          place =
              omega (arith, a.longer, h.place, ap (λ (k : ℕ). n * k) (length-append vs (x ∷ [])));
          held =
              a.value
              ∙ ap₂ (λ (t k : ℕ). t + 2 ^ k * x) h.held h.place
              ∙ one_more n (from_le bytes) h.reserved (length bytes) vs x;
        },
        a.same_room,
      ),
    )

-- The loop over the buffered values, when there is room for all.
pub put_literals_lem :
    (n : ℕ) (bytes vs xs : List ℕ) (w : BitWriter)
    → n ≤ 64
    → All (λ v. v < 2 ^ n) xs
    → HoldsOpen n bytes vs w
    → 8 * (length bytes + 1) + n * (length vs + length xs) ≤ 8 * w.max_bytes
    → (w' : BitWriter) × (put_literals n xs w ≡ ok w')
      × HoldsOpen n bytes (vs ++ xs) w'
      × (w'.max_bytes ≡ w.max_bytes)
unfolding put_literals
put_literals_lem n bytes vs [] w narrow small h room =
    (w, refl, subst (λ l. HoldsOpen n bytes l w) (sym (append_nil vs)) h, refl)
put_literals_lem n bytes vs (x ∷ xs) w narrow small h room =
    let (w1, put, a) = put_one n bytes vs x w narrow small.0 h (omega (arith, room)) in
    let (w2, rest, h2, same) =
      put_literals_lem n bytes (vs ++ x ∷ []) xs w1 narrow small.1 a.0 (
        omega
          (arith, room, ap (λ (k : ℕ). n * (k + length xs)) (length-append vs (x ∷ [])), a.1)) in
    (
      w2,
      rw (put) rest,
      subst (λ l. HoldsOpen n bytes l w2) (append_assoc vs (x ∷ []) xs) h2,
      same ∙ a.1,
    )

-- The indicator byte takes the reserved place, and the values stay.
pub put_indicator_lem :
    (n indicator : ℕ) (bytes vs : List ℕ) (w : BitWriter)
    → indicator < 256
    → All IsByte bytes
    → HoldsOpen n bytes vs w
    → (w' : BitWriter) × (put_aligned_offset indicator 1 (length bytes) w ≡ ok (true, w'))
      × IsValid w'
      × (position w' ≡ position w)
      × (written w' ≡ from_le bytes + 2 ^ (8 * length bytes) * (indicator + 256 * spell n vs))
      × (w'.max_bytes ≡ w.max_bytes)
put_indicator_lem n indicator bytes vs w low are_bytes h =
    let front : from_le bytes < 2 ^ (8 * length bytes) =
      omega (arith, from_le-lt bytes are_bytes, byte_pow-eq-two_pow (length bytes)) in
    overwrite_lem (length bytes) indicator w h.valid h.passed low (from_le bytes) h.reserved
      (spell n vs) front h.is_byte h.held
