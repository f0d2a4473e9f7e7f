-- ===== src/Encodings/Rle/Bits.antt =====
-- Bit-packed values of the format that src/encodings/rle.rs reads, and whole bytes of a reader.
use parquet_rs.Encodings.Rle.Format.{spell}
use parquet_rs.BitUtil.Batch.Fields.{fields}
use parquet_rs.BitUtil.Reader.{BitReader, get_aligned}
use parquet_rs.BitUtil.Reader.Position.{IsValid, position, bits_from}
use parquet_rs.BitUtil.Reader.Aligned.{aligned, past, get_aligned_enough, past-IsValid}
use parquet_rs.BitUtil.Vlq.Get.{Got, unread}
use parquet_rs.BitUtil.Scalar.Laws.{ceil_eight}
use parquet_rs.Prelude.{
  ℕ, suc, ◌+◌, ◌*◌, ◌/◌, ◌%◌, ◌^◌, ◌≤◌, ◌<◌, List, [], ◌∷◌, ◌++◌, length, length-append,
  length-drop, take, drop, drop-drop, take_append_exact, drop_append_exact, All, some, ok, ◌≡◌,
  refl, sym, ap, ap₂, ◌∙◌, arith, two_pow-add, two_pow_pos, add_mul_div, add_mul_mod, add_mul-lt,
  shift_shift,
}
use parquet_rs.Prelude.Bytes.{
  from_le, to_le, length-to_le, from_le-to_le, from_le-append, from_le-drop, byte_pow-eq-two_pow,
}
use native.Mathlib.Nat.{mod-eq_of_lt}

pub spell-lt : (w : ℕ) (vs : List ℕ) → All (λ v. v < 2 ^ w) vs → spell w vs < 2 ^ (w * length vs)
spell-lt w [] h = two_pow_pos (w * 0)
spell-lt w (v ∷ vs) h = omega (
  arith,
  add_mul-lt (2 ^ w) (2 ^ (w * length vs)) v (spell w vs) h.0 (spell-lt w vs h.1),
  two_pow-add w (w * length vs),
  ap (λ (k : ℕ). 2 ^ k) (let e : w * suc (length vs) ≡ w + w * length vs = omega arith in e),
)

-- Values that are spelled from bit `p` on are the fields there.
pub fields-spell :
    (bytes : List ℕ) (w more : ℕ) (vs : List ℕ) (p : ℕ)
    → All (λ v. v < 2 ^ w) vs
    → bits_from bytes p ≡ spell w vs + 2 ^ (w * length vs) * more
    → fields bytes w (length vs) p ≡ vs
fields-spell bytes w more [] p small h = refl
fields-spell bytes w more (v ∷ vs) p small h =
    ap₂ ◌∷◌ (ap (λ (x : ℕ). x % 2 ^ w) split ∙ add_mul_mod (2 ^ w) v _ small.0) (
      fields-spell bytes w more vs (p + w) small.1 (
        sym (shift_shift (from_le bytes) p w)
        ∙ ap (λ (x : ℕ). x / 2 ^ w) split
        ∙ add_mul_div (2 ^ w) v _ small.0))
  where
    split : bits_from bytes p ≡ v + 2 ^ w * (spell w vs + 2 ^ (w * length vs) * more)
    split = omega (
      arith,
      h,
      ap (λ (t : ℕ). t * more)
          (ap (λ (k : ℕ). 2 ^ k)
              (let e : w * suc (length vs) ≡ w + w * length vs = omega arith in e)
            ∙ two_pow-add w (w * length vs)),
    )

-- Whole bytes that the reader stands before.
module _ (bytes rest : List ℕ) (r : BitReader) (valid : IsValid r)
    (front : unread r ≡ bytes ++ rest) where
  enough_bytes : aligned r + length bytes ≤ r.total_bytes
  enough_bytes = omega (
    arith,
    length-drop (aligned r) r.buffer,
    ap length front,
    length-append bytes rest,
    valid.fits,
    valid.room,
    ceil_eight r.bit_offset,
  )

  pub get_whole : get_aligned (length bytes) r ≡ ok (some (from_le bytes), past (length bytes) r)
  get_whole =
      get_aligned_enough (length bytes) r valid enough_bytes
      ∙ ap (λ (l : List ℕ). ok (some (from_le l), past (length bytes) r))
          (ap (take (length bytes)) front ∙ take_append_exact bytes rest)

  pub get_whole-Got : Got rest r (past (length bytes) r)
  get_whole-Got = record {
    valid = past-IsValid (length bytes) r valid enough_bytes;
    same_buffer = refl;
    full_bytes = refl;
    left =
        ap (λ (k : ℕ). drop k r.buffer) (omega (arith, ceil_eight 0))
        ∙ sym (drop-drop (length bytes) (aligned r) r.buffer)
        ∙ ap (drop (length bytes)) front
        ∙ drop_append_exact bytes rest;
  }

-- The bytes that a reader at a whole byte still has, as the bits from its position on.
pub bits_from-unread :
    (r : BitReader)
    → IsValid r
    → r.bit_offset ≡ 0
    → bits_from r.buffer (position r) ≡ from_le (unread r)
bits_from-unread r valid flat =
    ap (bits_from r.buffer)
      (let e : position r ≡ 8 * aligned r = omega (arith, ceil_eight r.bit_offset, flat) in e)
    ∙ ap (λ (t : ℕ). from_le r.buffer / t) (sym (byte_pow-eq-two_pow (aligned r)))
    ∙ sym (from_le-drop (aligned r) r.buffer valid.bytes)

-- A group of values behind the indicator.
pub fields-packed :
    (w groups : ℕ) (vs rest : List ℕ) (r : BitReader)
    → IsValid r
    → r.bit_offset ≡ 0
    → All (λ v. v < 2 ^ w) vs
    → length vs ≡ 8 * groups
    → unread r ≡ to_le (w * groups) (spell w vs) ++ rest
    → fields r.buffer w (8 * groups) (position r) ≡ vs
fields-packed w groups vs rest r valid flat small many front =
    ap (λ (k : ℕ). fields r.buffer w k (position r)) (sym many)
    ∙ fields-spell r.buffer w (from_le rest) vs (position r) small (
        bits_from-unread r valid flat
        ∙ ap from_le front
        ∙ from_le-append (to_le (w * groups) (spell w vs)) rest
        ∙ ap₂ (λ (x y : ℕ). x + y * from_le rest)
            (from_le-to_le (w * groups) (spell w vs)
              ∙ ap (λ (t : ℕ). spell w vs % t) bits
              ∙ mod-eq_of_lt (spell-lt w vs small))
            (ap (λ (k : ℕ). 256 ^ k) (length-to_le (w * groups) (spell w vs)) ∙ bits))
  where
    bits : 256 ^ (w * groups) ≡ 2 ^ (w * length vs)
    bits =
        byte_pow-eq-two_pow (w * groups)
        ∙ ap (λ (k : ℕ). 2 ^ k)
            (let e : 8 * (w * groups) ≡ w * length vs = omega (arith, ap (λ (k : ℕ). w * k) many) in
              e)
