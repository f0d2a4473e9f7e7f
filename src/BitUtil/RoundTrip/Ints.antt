-- ===== src/BitUtil/RoundTrip/Ints.antt =====
-- src/util/bit_util.rs: variable-length integers, written by `put_vlq_int` and read by
-- `get_vlq_int`.
use parquet_rs.BitUtil.Writer.{BitWriter, consume}
use parquet_rs.BitUtil.Writer.Invariant
use parquet_rs.BitUtil.Writer.Aligned.{aligned}
use parquet_rs.BitUtil.Writer.Whole.{new-IsValid, consume_lem}
use parquet_rs.BitUtil.Writer
use parquet_rs.BitUtil.Reader.{BitReader}
use parquet_rs.BitUtil.Reader
use parquet_rs.BitUtil.Reader.Position
use parquet_rs.BitUtil.Scalar.{ceil}
use parquet_rs.BitUtil.Scalar.Laws.{ceil_eight}
use parquet_rs.BitUtil.Vlq.{
  put_vlq_int, get_vlq_int, zigzag, put_zigzag_vlq_int, get_zigzag_vlq_int,
}
use parquet_rs.BitUtil.Vlq.Format.{vlq, vlq_bytes-IsByte}
use parquet_rs.BitUtil.Vlq.Put.{Put, put_vlq_int_lem}
use parquet_rs.BitUtil.Vlq.Get.{Got, unread, get_vlq_int_lem}
use parquet_rs.BitUtil.Vlq.ZigZag.{zigzag-lt, unzigzag-zigzag}
use parquet_rs.Prelude.{
  append_nil, ℕ, ◌+◌, ◌*◌, ◌^◌, ◌≤◌, ◌<◌, List, [], ◌∷◌, ◌++◌, length, drop, length-append, All,
  All-append, Bool, true, ◌&&◌, Option, some, Outcome, ok, ◌>>=◌, ◌≡◌, refl, sym, ap, ◌∙◌, arith,
  two_pow-add, map, le→leb,
}
use parquet_rs.Prelude.Bytes.{
  IsByte, from_le, from_le-append, from_le-injective, byte_pow-eq-two_pow,
}
use mathlib.Core.List.{append_assoc}

-- One `put_vlq_int` after the other, and whether all of them succeeded.
abbrev pub put_vlq_ints : List ℕ → BitWriter → Outcome (Bool × BitWriter)
put_vlq_ints [] w = ok (true, w)
put_vlq_ints (v ∷ vs) w = do
  (done, w') ← put_vlq_int v w
  (rest, w'') ← put_vlq_ints vs w'
  ok (done && rest, w'')

-- One `get_vlq_int` after the other.
abbrev pub get_vlq_ints : List ℕ → BitReader → Outcome (List (Option ℕ) × BitReader)
get_vlq_ints [] r = ok ([], r)
get_vlq_ints (v ∷ vs) r = do
  (x, r') ← get_vlq_int r
  (rest, r'') ← get_vlq_ints vs r'
  ok (x ∷ rest, r'')

-- The bytes of all of them.
abbrev pub vlqs : List ℕ → List ℕ
vlqs [] = []
vlqs (v ∷ vs) = vlq v ++ vlqs vs

abbrev pub AllU64 : List ℕ → Type 0
AllU64 vs = All (λ v. v < 2 ^ 64) vs

vlqs-IsByte : (vs : List ℕ) → All IsByte (vlqs vs)
vlqs-IsByte [] = tt
vlqs-IsByte (v ∷ vs) = All-append IsByte (vlq v) (vlqs vs) (vlq_bytes-IsByte 9 v) (vlqs-IsByte vs)

-- A writer at a whole byte that has appended these bytes.
record Bytewise (bytes : List ℕ) (w w' : BitWriter) : Type 0 where
  valid : Invariant.IsValid w'
  same_room : w'.max_bytes ≡ w.max_bytes
  full_bytes : w'.bit_offset ≡ 0
  moved : w'.byte_offset ≡ w.byte_offset + length bytes
  number : Invariant.written w' ≡ Invariant.written w + 2 ^ (8 * w.byte_offset) * from_le bytes

aligned_flat : (w : BitWriter) → w.bit_offset ≡ 0 → aligned w ≡ w.byte_offset
aligned_flat w h = omega (arith, ceil_eight w.bit_offset)

Bytewise-trans :
    {xs ys : List ℕ} {w w1 w2 : BitWriter}
    → Bytewise xs w w1
    → Bytewise ys w1 w2
    → Bytewise (xs ++ ys) w w2
Bytewise-trans {xs} {ys} {w} {w1} a b = record {
  valid = b.valid;
  same_room = b.same_room ∙ a.same_room;
  full_bytes = b.full_bytes;
  moved = omega (arith, a.moved, b.moved, length-append xs ys);
  number = omega (
    arith,
    a.number,
    b.number,
    ap (λ (t : ℕ). 2 ^ (8 * w.byte_offset) * t) (from_le-append xs ys),
    ap (λ (t : ℕ). t * from_le ys) further,
  );
}
  where
    further : 2 ^ (8 * w1.byte_offset) ≡ 2 ^ (8 * w.byte_offset) * 256 ^ length xs
    further =
        ap (λ (p : ℕ). 2 ^ p)
          (let e : 8 * w1.byte_offset ≡ 8 * w.byte_offset + 8 * length xs =
              omega (arith, a.moved) in
            e)
        ∙ two_pow-add (8 * w.byte_offset) (8 * length xs)
        ∙ ap (λ (t : ℕ). 2 ^ (8 * w.byte_offset) * t) (sym (byte_pow-eq-two_pow (length xs)))

put_vlq_int-Bytewise :
    (v : ℕ) (others : List ℕ) (w : BitWriter)
    → Invariant.IsValid w
    → w.bit_offset ≡ 0
    → v < 2 ^ 64
    → w.byte_offset + length (vlq v ++ others) ≤ w.max_bytes
    → (w' : BitWriter) × (put_vlq_int v w ≡ ok (true, w')) × Bytewise (vlq v) w w'
put_vlq_int-Bytewise v others w valid flat small room =
    let (w', e, p) = put_vlq_int_lem v w valid small in
    let (moved, number) = p.appended fits in
    (
      w',
      e ∙ ap (λ (b : Bool). ok (b, w')) (le→leb _ _ fits),
      record {
        valid = p.valid;
        same_room = p.same_room;
        full_bytes = p.full_bytes;
        moved = omega (arith, moved, aligned_flat w flat);
        number =
            number
            ∙ ap (λ (k : ℕ). Invariant.written w + 2 ^ (8 * k) * from_le (vlq v))
                (aligned_flat w flat);
      },
    )
  where
    fits : aligned w + length (vlq v) ≤ w.max_bytes
    fits = omega (arith, room, aligned_flat w flat, length-append (vlq v) others)

put_vlq_ints_lem :
    (vs : List ℕ) (w : BitWriter)
    → Invariant.IsValid w
    → w.bit_offset ≡ 0
    → AllU64 vs
    → w.byte_offset + length (vlqs vs) ≤ w.max_bytes
    → (w' : BitWriter) × (put_vlq_ints vs w ≡ ok (true, w')) × Bytewise (vlqs vs) w w'
put_vlq_ints_lem [] w valid flat small room = (
  w,
  refl,
  record {
    valid = valid;
    same_room = refl;
    full_bytes = flat;
    moved = omega arith;
    number = unfold from_le in omega arith;
  },
)
put_vlq_ints_lem (v ∷ vs) w valid flat small room =
    let (w1, e, b1) = put_vlq_int-Bytewise v (vlqs vs) w valid flat small.0 room in
    let (w2, e2, b2) =
      put_vlq_ints_lem vs w1 b1.valid b1.full_bytes small.1
        (omega (arith, room, b1.moved, b1.same_room, length-append (vlq v) (vlqs vs))) in
    (w2, rw (e, e2) refl, Bytewise-trans b1 b2)

unread_first : (r : BitReader) → Position.position r ≡ 0 → unread r ≡ r.buffer
unfolding ceil
unread_first r h =
    ap (λ (k : ℕ). drop k r.buffer)
      (let e : r.byte_offset + ceil r.bit_offset 8 ≡ 0 =
          omega (arith, h, ceil_eight r.bit_offset) in
        e)

get_vlq_ints_lem :
    (vs : List ℕ) (rest : List ℕ) (r : BitReader)
    → Position.IsValid r
    → AllU64 vs
    → unread r ≡ vlqs vs ++ rest
    → (r' : BitReader) × (get_vlq_ints vs r ≡ ok (map some vs, r'))
get_vlq_ints_lem [] rest r valid small front = (r, refl)
get_vlq_ints_lem (v ∷ vs) rest r valid small front =
    let (r1, e, got) =
      get_vlq_int_lem v (vlqs vs ++ rest) r valid small.0
        (front ∙ append_assoc (vlq v) (vlqs vs) rest) in
    let (r2, e2) = get_vlq_ints_lem vs rest r1 got.valid small.1 got.left in (r2, rw (e, e2) refl)

-- A sequence of `u64`s that `put_vlq_int` writes to a new writer with enough room all succeed, and
-- a new reader of the bytes that `consume` hands over returns the same numbers. The bytes are
-- those of the format, and nothing panics.
pub vlq_round_trip :
    (vs : List ℕ) (max_bytes : ℕ)
    → AllU64 vs
    → length (vlqs vs) ≤ max_bytes
    → (w : BitWriter) × (r : BitReader) × (r' : BitReader) × (put_vlq_ints vs (Writer.new max_bytes)
        ≡ ok (true, w))
      × (consume w ≡ ok (vlqs vs))
      × (Reader.new (vlqs vs) ≡ ok r)
      × (get_vlq_ints vs r ≡ ok (map some vs, r'))
unfolding Writer.new from_le
vlq_round_trip vs max_bytes small room =
    let (w, put, b) =
      put_vlq_ints_lem vs (Writer.new max_bytes) (new-IsValid max_bytes) refl small
        (omega (arith, room)) in
    let (bytes, taken, are_bytes, many, number) = consume_lem w b.valid in
    let same : bytes ≡ vlqs vs =
      from_le-injective bytes (vlqs vs) are_bytes (vlqs-IsByte vs)
        (omega (arith, many, b.moved, b.full_bytes)) (omega (arith, number, b.number)) in
    let (r, opened, valid_r, buffer, first) = Position.new-IsValid (vlqs vs) (vlqs-IsByte vs) in
    let (r', got) =
      get_vlq_ints_lem vs [] r valid_r small
        (unread_first r first ∙ buffer ∙ sym (append_nil (vlqs vs))) in
    (w, r, r', put, taken ∙ ap ok same, opened, got)

-- Every `i64`, given by its 64 bits, survives `put_zigzag_vlq_int` and `get_zigzag_vlq_int`: a
-- valid writer with room for the bytes of its zigzag number appends them, and a valid reader that
-- stands before these bytes returns it, and stands behind them then.
pub zigzag_round_trip :
    (v : ℕ) (w : BitWriter) (rest : List ℕ) (r : BitReader)
    → v < 2 ^ 64
    → Invariant.IsValid w
    → aligned w + length (vlq (zigzag v)) ≤ w.max_bytes
    → Position.IsValid r
    → unread r ≡ vlq (zigzag v) ++ rest
    → (w' : BitWriter) × (r' : BitReader) × (put_zigzag_vlq_int v w ≡ ok (true, w'))
      × Put (vlq (zigzag v)) w w'
      × (get_zigzag_vlq_int r ≡ ok (some v, r'))
      × Got rest r r'
unfolding put_zigzag_vlq_int get_zigzag_vlq_int
zigzag_round_trip v w rest r small valid room valid_r front =
    let (w', put, p) = put_vlq_int_lem (zigzag v) w valid (zigzag-lt v small) in
    let (r', get, g) = get_vlq_int_lem (zigzag v) rest r valid_r (zigzag-lt v small) front in
    (
      w',
      r',
      put ∙ ap (λ (b : Bool). ok (b, w')) (le→leb _ _ room),
      p,
      rw get (ap (λ (x : ℕ). ok (some x, r')) (unzigzag-zigzag v small)),
      g,
    )
