-- ===== src/BitUtil/Vlq/Put.antt =====
-- src/util/bit_util.rs: `put_vlq_int` writes the bytes of the format.
use parquet_rs.BitUtil.Vlq.{put_vlq_loop, put_vlq_int}
use parquet_rs.BitUtil.Vlq.Format.{vlq_bytes, vlq, vlq_bytes_last, vlq_bytes_more}
use parquet_rs.BitUtil.Writer.{BitWriter, put_aligned}
use parquet_rs.BitUtil.Writer.Invariant.{IsValid, written}
use parquet_rs.BitUtil.Writer.Aligned.{
  flushed, flushed-IsValid, aligned, put_bytes, put_aligned_full, put_aligned_room,
  put_bytes-IsValid, written-put_bytes,
}
use parquet_rs.BitUtil.Scalar.{ceil}
use parquet_rs.Prelude.{
  ℕ, zero, suc, ◌+◌, ◌*◌, ◌/◌, ◌%◌, ◌^◌, ◌≤◌, ◌<◌, List, [], ◌∷◌, length, Bool, true, false,
  Bool-cases, inl, inr, ◌&&◌, Outcome, ok, ◌>>=◌, ltb, ltb→lt, ltb→le, leb, ◌==◌, not, bit_and,
  bit_or, bit_and-0x7f, bit_or-0x80, bit_and_above_seven, ◌≡◌, refl, sym, ap, ap₂, ◌∙◌, arith,
  two_pow-add,
}
use parquet_rs.BitUtil.Scalar.Laws.{ceil_eight}
use parquet_rs.Prelude.Bytes.{from_le}
use native.Mathlib.Decide.{dec_lt}
use native.Mathlib.Nat.{mod-eq_of_lt, pow-succ'}

-- What is left after writing whole bytes: they all fit, or some did not.
pub record Put (bytes : List ℕ) (w : BitWriter) (w' : BitWriter) : Type 0 where
  pub valid : IsValid w'
  pub same_room : w'.max_bytes ≡ w.max_bytes
  pub same_start : w'.start ≡ w.start
  pub full_bytes : w'.bit_offset ≡ 0
  pub appended :
      aligned w + length bytes ≤ w.max_bytes
      → (w'.byte_offset ≡ aligned w + length bytes)
        × (written w' ≡ written w + 2 ^ (8 * aligned w) * from_le bytes)

-- All the writes succeed exactly when the bytes fit.
abbrev all_fit : List ℕ → BitWriter → Bool
all_fit bytes w = leb (aligned w + length bytes) w.max_bytes

-- One more byte in front.
module _ (byte : ℕ) (rest : List ℕ) (w : BitWriter) (valid : IsValid w) where
  further : 2 ^ (8 * aligned (put_bytes byte 1 w)) ≡ 2 ^ (8 * aligned w) * 256
  unfolding ceil
  further =
      ap (λ (k : ℕ). 2 ^ k) (let e : 8 * (aligned w + 1 + 0) ≡ 8 * aligned w + 8 = omega arith in e)
      ∙ two_pow-add (8 * aligned w) 8

  Put-cons :
      {w' : BitWriter}
      → byte < 256
      → aligned w + 1 ≤ w.max_bytes
      → Put rest (put_bytes byte 1 w) w'
      → Put (byte ∷ rest) w w'
  unfolding from_le ceil
  Put-cons small room p = record {
    valid = p.valid;
    same_room = p.same_room;
    same_start = p.same_start;
    full_bytes = p.full_bytes;
    appended = λ fits. (
      omega (arith, p.appended (omega arith)),
      omega (
        arith,
        p.appended (omega arith),
        written-put_bytes byte 1 w valid room,
        ap (λ (t : ℕ). t * from_le rest) further,
        ap (λ (t : ℕ). 2 ^ (8 * aligned w) * t) (let e : byte % 2 ^ 8 ≡ byte = omega arith in e),
      ),
    );
  }

  -- The first byte did not fit: then neither do the others.
  Put-full :
      {w' : BitWriter}
      → w.max_bytes < aligned w + 1
      → Put rest (flushed w) w'
      → Put (byte ∷ rest) w w'
  Put-full full p = record {
    valid = p.valid;
    same_room = p.same_room;
    same_start = p.same_start;
    full_bytes = p.full_bytes;
    appended = λ fits. absurd (omega arith);
  }

Put-nil : (w : BitWriter) → IsValid w → w.bit_offset ≡ 0 → Put [] w w
unfolding from_le ceil
Put-nil w valid h = record {
  valid = valid;
  same_room = refl;
  same_start = refl;
  full_bytes = h;
  appended = λ fits. (rw h (omega arith), omega arith);
}

and_dead : (a x y : Bool) → y ≡ false → ((a && false) && x) ≡ (a && y)
and_dead true x y h = sym h
and_dead false x y h = refl

and_live : (a x y : Bool) → x ≡ y → ((a && true) && x) ≡ (a && y)
and_live true x y h = h
and_live false x y h = refl

and_true : (a : Bool) → a ≡ (a && true)
and_true true = refl
and_true false = refl

all_fit-full :
    (byte : ℕ) (rest : List ℕ) (w : BitWriter)
    → w.max_bytes < aligned w + 1
    → all_fit (byte ∷ rest) w ≡ false
all_fit-full byte rest w h = ground arith

all_fit-put_bytes :
    (byte : ℕ) (rest : List ℕ) (w : BitWriter)
    → all_fit rest (put_bytes byte 1 w) ≡ all_fit (byte ∷ rest) w
unfolding ceil
all_fit-put_bytes byte rest w =
    ap (λ (k : ℕ). leb k w.max_bytes)
      (let e : aligned w + 1 + 0 + length rest ≡ aligned w + suc (length rest) = omega arith in e)

-- One byte, with whatever writes follow it.
module _ (byte : ℕ) (rest : List ℕ) (more : Bool → BitWriter → Outcome (Bool × BitWriter))
    (small : byte < 256)
    (more_lem : (done : Bool) (w : BitWriter)
      → IsValid w
      → w.bit_offset ≡ 0
      → (w' : BitWriter) × (more done w ≡ ok (done && all_fit rest w, w')) × Put rest w w') where
  one_more_byte :
      (result : Bool) (w : BitWriter)
      → IsValid w
      → (w' : BitWriter) × ((put_aligned byte 1 w >>= λ (done, w1). more (result && done) w1)
          ≡ ok (result && all_fit (byte ∷ rest) w, w'))
        × Put (byte ∷ rest) w w'
  one_more_byte result w valid = elim (Bool-cases (ltb w.max_bytes (aligned w + 1))) [
    | inl full ↦
        let h = ltb→lt _ _ full in
        let (w', e, p) = more_lem (result && false) (flushed w) (flushed-IsValid w valid) refl in
        (
          w',
          rw (put_aligned_full byte 1 w valid h) (
              e ∙ ap (λ (b : Bool). ok (b, w')) (and_dead result _ _ (all_fit-full byte rest w h))),
          Put-full byte rest w valid h p,
        )
    | inr free ↦
        let h = ltb→le _ _ free in
        let (w', e, p) =
          more_lem (result && true) (put_bytes byte 1 w) (put_bytes-IsValid byte 1 w valid h)
            refl in
        (
          w',
          rw (put_aligned_room byte 1 w valid h) (
              e
              ∙ ap (λ (b : Bool). ok (b, w'))
                  (and_live result _ _ (all_fit-put_bytes byte rest w))),
          Put-cons byte rest w valid small h p,
        )
  ]

finish : Bool → BitWriter → Outcome (Bool × BitWriter)
finish done w = ok (done, w)

finish_lem :
    (done : Bool) (w : BitWriter)
    → IsValid w
    → w.bit_offset ≡ 0
    → (w' : BitWriter) × (finish done w ≡ ok (done && all_fit [] w, w')) × Put [] w w'
unfolding finish
finish_lem done w valid h = (
  w,
  ap (λ (b : Bool). ok (b, w)) (and_true done ∙ ap (λ (b : Bool). done && b) (sym nothing_left)),
  Put-nil w valid h,
)
  where
    nothing_left : all_fit [] w ≡ true
    nothing_left = ground (arith, ceil_eight w.bit_offset, valid.room)

last_byte : (v : ℕ) → bit_and v 0x7F % 256 ≡ v % 128
last_byte v = omega (arith, bit_and-0x7f v)

inner_byte : (v : ℕ) → bit_or (bit_and v 0x7F) 0x80 % 256 ≡ v % 128 + 128
inner_byte v =
    ap (λ (t : ℕ). bit_or t 0x80 % 256) (bit_and-0x7f v)
    ∙ omega (arith, bit_or-0x80 (v % 128) (omega arith))

-- One round of the loop, on its two branches.
put_vlq_loop_last :
    (k v : ℕ) (result : Bool) (w : BitWriter)
    → v < 128
    → put_vlq_loop (suc k) v result w
      ≡ (put_aligned v 1 w >>= λ (done, w1). finish (result && done) w1)
unfolding put_vlq_loop finish
put_vlq_loop_last k v result w h = elim (Bool-cases (bit_and v 0xFFFF_FFFF_FFFF_FF80 == 0)) [
  | inl e ↦ ap₂ branch e (last_byte v ∙ mod-eq_of_lt h)
  | inr e ↦ absurd (ground (arith, bit_and_above_seven v (omega arith)))
]
  where
    branch : Bool → ℕ → Outcome (Bool × BitWriter)
    branch test byte = elim (not test) [
      | true ↦ (do
        (done, w') ← put_aligned (bit_or (bit_and v 0x7F) 0x80 % 256) 1 w
        put_vlq_loop k (v / 2 ^ 7) (result && done) w')
      | false ↦ (do (done, w') ← put_aligned byte 1 w; ok (result && done, w'))
    ]

put_vlq_loop_more :
    (k v : ℕ) (result : Bool) (w : BitWriter)
    → v < 2 ^ 64
    → 128 ≤ v
    → put_vlq_loop (suc k) v result w ≡ (
        put_aligned (v % 128 + 128) 1 w >>= λ (done, w1).
        put_vlq_loop k (v / 128) (result && done) w1)
unfolding put_vlq_loop
put_vlq_loop_more k v result w small h = elim (Bool-cases (bit_and v 0xFFFF_FFFF_FFFF_FF80 == 0)) [
  | inl e ↦ absurd (ground (arith, bit_and_above_seven v small))
  | inr e ↦ ap₂ branch e (inner_byte v)
]
  where
    branch : Bool → ℕ → Outcome (Bool × BitWriter)
    branch test byte = elim (not test) [
      | true ↦ (do
        (done, w') ← put_aligned byte 1 w
        put_vlq_loop k (v / 2 ^ 7) (result && done) w')
      | false ↦ (do (done, w') ← put_aligned (bit_and v 0x7F % 256) 1 w; ok (result && done, w'))
    ]

put_vlq_loop_lem :
    (k v : ℕ)
    → v < 128 ^ suc k
    → v < 2 ^ 64
    → (result : Bool) (w : BitWriter) → IsValid w
    → (w' : BitWriter) × (put_vlq_loop k v result w ≡ ok (result && all_fit (vlq_bytes k v) w, w'))
      × Put (vlq_bytes k v) w w'
put_vlq_loop_lem zero v h small result w valid =
    unfold put_vlq_loop vlq_bytes finish in
    rw (last_byte v) (one_more_byte (v % 128) [] finish (omega arith) finish_lem result w valid)
put_vlq_loop_lem (suc k) v h small result w valid = elim (dec_lt v 128) [
  | yes last ↦
      rw (put_vlq_loop_last k v result w last, vlq_bytes_last (suc k) v last)
        (one_more_byte v [] finish (omega arith) finish_lem result w valid)
  | no more ↦
      rw (put_vlq_loop_more k v result w small (omega arith), vlq_bytes_more k v (omega arith))
        (one_more_byte (v % 128 + 128) (vlq_bytes k (v / 128)) (put_vlq_loop k (v / 128))
          (omega arith)
          (λ done w1 valid1 flat.
            put_vlq_loop_lem k (v / 128) (omega (arith, pow-succ' 128 (suc k))) (omega arith) done
              w1 valid1)
          result w valid)
]

-- `put_vlq_int` of a `u64` never panics on a valid writer. It answers `true` exactly when the bytes of the
-- format, behind the zero padding, fit the buffer; it has appended them then.
pub put_vlq_int_lem :
    (v : ℕ) (w : BitWriter)
    → IsValid w
    → v < 2 ^ 64
    → (w' : BitWriter) × (put_vlq_int v w ≡ ok (leb (aligned w + length (vlq v)) w.max_bytes, w'))
      × Put (vlq v) w w'
unfolding put_vlq_int
put_vlq_int_lem v w valid h = put_vlq_loop_lem 9 v (omega arith) h true w valid
