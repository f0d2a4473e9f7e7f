-- ===== src/BitUtil/Batch/Whole.antt =====
-- src/util/bit_util.rs: `BitReader::get_batch` as a whole.
use parquet_rs.BitUtil.Batch.{batch_size, get_chunks, read_aligned, read_batch, get_batch}
use parquet_rs.BitUtil.Batch.Fields.{fields, fields-append, Ready}
use parquet_rs.BitUtil.Batch.Chunks.{skipped_chunks, get_chunks_lem}
use parquet_rs.BitUtil.Batch.Singles.{
  Past, Past-trans, fields-Past, total_bytes_same, get_each_lem, get_unaligned_lem,
}
use parquet_rs.BitUtil.Reader.{BitReader, reload_buffer_values}
use parquet_rs.BitUtil.Reader.Position.{IsValid, position, bits_from, reload_lem}
use parquet_rs.Prelude.{
  sym, ◌⊎◌, ℕ, zero, suc, ◌+◌, ◌-◌, ◌*◌, ◌/◌, ◌%◌, ◌^◌, ◌≤◌, ◌<◌, List, ◌++◌, length, take, drop,
  length-take, length-drop, All, All-take, All-drop, ok, ltb, lt→ltb, ltb→lt, ltb→le, leb, le→leb,
  Bool-cases, true, inl, inr, ◌≡◌, refl, subst, ap, ◌∙◌, arith,
}
use native.Mathlib.Nat.{mod-lt, div-add-mod, div-le_of_le-mul, mul-le-mul_left}

-- The values fit what is left of the reader, and the batch.
batch_size_room :
    (n len : ℕ) (r : BitReader)
    → IsValid r
    → (position r + n * batch_size n len r ≤ 8 * r.total_bytes) × (batch_size n len r ≤ len)
batch_size_room n len r valid =
    elim (Bool-cases (ltb ((r.total_bytes - r.byte_offset) * 8 - r.bit_offset) (n * len))) [
      | inl short ↦ rw short (
        omega
            (arith, valid.room, div-add-mod ((r.total_bytes - r.byte_offset) * 8 - r.bit_offset) n),
        quotient ((r.total_bytes - r.byte_offset) * 8 - r.bit_offset) (ltb→lt _ _ short),
      )
      | inr enough ↦ rw enough (omega (arith, valid.room, ltb→le _ _ enough), omega arith)
    ]
  where
    quotient : (x : ℕ) → x < n * len → x / n ≤ len
    quotient x h = div-le_of_le-mul n (omega arith)

-- The loop over `unpack32` and the reload behind it, from a whole byte or with no places left.
module _ (size_of n : ℕ) (word : n ≤ 32) (typed : n ≤ 8 * size_of) where
  stays :
      (olds : List ℕ) (r : BitReader) (c : ℕ)
      → position r + n * length olds ≤ 8 * r.total_bytes
      → 32 * c ≤ length olds
      → position r + 32 * n * c ≤ 8 * r.total_bytes
  stays olds r c room below = omega (arith, room, mul-le-mul_left n below)

  same_start :
      (olds : List ℕ) (r : BitReader) (c : ℕ)
      → (0 < length olds → r.bit_offset ≡ 0)
      → 32 * c ≤ length olds
      → fields r.buffer n (32 * c) (8 * r.byte_offset) ≡ fields r.buffer n (32 * c) (position r)
  same_start olds r zero flat below = refl
  same_start olds r (suc c) flat below =
      ap (fields r.buffer n (32 * suc c))
        (let e : 8 * r.byte_offset ≡ position r = omega (arith, flat (omega arith)) in e)

  chunks_phase :
      (olds : List ℕ) (r : BitReader)
      → IsValid r
      → All (Ready size_of) olds
      → position r + n * length olds ≤ 8 * r.total_bytes
      → (0 < length olds → r.bit_offset ≡ 0)
      → (c : ℕ) × (r2 : BitReader) × (r3 : BitReader) × (get_chunks
            (length olds)
            size_of
            n
            (drop r.byte_offset r.buffer)
            olds
            r
          ≡ ok (fields r.buffer n (32 * c) (position r), (drop (32 * c) olds, r2)))
        × (reload_buffer_values r2 ≡ ok r3)
        × Past n (32 * c) r r3
        × (32 * c ≤ length olds)
        × (length olds < 32 * c + 32)
  chunks_phase olds r valid ready room flat =
      let (c, (e, below, above)) =
        get_chunks_lem size_of n word typed (length olds) olds r valid.bytes ready (omega arith) in
      (
        c,
        skipped_chunks n c r,
        record r {
          byte_offset = r.byte_offset + 4 * n * c;
          buffered_values = bits_from r.buffer (8 * (r.byte_offset + 4 * n * c)) % 2 ^ 64;
        },
        e
            ∙ ap (λ (vs : List ℕ). ok (vs, (drop (32 * c) olds, skipped_chunks n c r)))
                (same_start olds r c flat below),
        reload_lem (skipped_chunks n c r) valid.bytes valid.fits
            (omega (arith, stays olds r c room below)),
        record {
          valid = record {
            fits = valid.fits;
            bytes = valid.bytes;
            pending = valid.pending;
            room = omega (arith, stays olds r c room below);
            loaded = refl;
          };
          moved = omega arith;
          same_buffer = refl;
        },
        below,
        above,
      )

-- The three loops together.
module _ (size_of n : ℕ) (word : n ≤ 32) (typed : n ≤ 8 * size_of) where
  -- Room for `a` values is room for `i` of them and then for the others, that `places` hold.
  left_room :
      (places : List ℕ) (i p t : ℕ)
      → i ≤ length places
      → p + n * length places ≤ t
      → p + n * i + n * length (drop i places) ≤ t
  left_room places i p t few room = omega (
    arith,
    room,
    ap (λ (x : ℕ). n * x)
        (let e : length places ≡ i + length (drop i places) = omega (arith, length-drop i places) in
          e),
  )

  whole : (places : List ℕ) (i : ℕ) → i ≤ length places → i + length (drop i places) ≡ length places
  whole places i few = omega (arith, length-drop i places)

  Past-whole :
      {r r1 r2 : BitReader} (places : List ℕ) (i : ℕ)
      → i ≤ length places
      → Past n i r r1
      → Past n (length (drop i places)) r1 r2
      → Past n (length places) r r2
  Past-whole {r} {r1} {r2} places i few a b =
      subst (λ (k : ℕ). Past n k r r2) (whole places i few) (Past-trans a b)

  fields-whole :
      {r r1 : BitReader} (places : List ℕ) (i : ℕ)
      → i ≤ length places
      → Past n i r r1
      → fields r.buffer n i (position r)
          ++ fields r1.buffer n (length (drop i places)) (position r1)
        ≡ fields r.buffer n (length places) (position r)
  fields-whole {r} {r1} places i few a =
      ap (λ (xs : List ℕ). fields r.buffer n i (position r) ++ xs)
        (fields-Past a (length (drop i places)))
      ∙ fields-append r.buffer n i (length (drop i places)) (position r)
      ∙ ap (λ (k : ℕ). fields r.buffer n k (position r)) (whole places i few)

  read_aligned_lem :
      (places : List ℕ) (r : BitReader)
      → IsValid r
      → All (Ready size_of) places
      → position r + n * length places ≤ 8 * r.total_bytes
      → (0 < length places → r.bit_offset ≡ 0)
      → (r' : BitReader) × (read_aligned size_of n places r
          ≡ ok (fields r.buffer n (length places) (position r), r'))
        × Past n (length places) r r'
  unfolding read_aligned
  read_aligned_lem places r valid ready room flat =
      let (c, r2, r3, e2, e3, p2, below, above) =
        chunks_phase size_of n word typed places r valid ready room flat in
      let room2 = left_room places (32 * c) (position r) (8 * r.total_bytes) below room in
      let (r4, e4, p4) =
        get_each_lem size_of n word typed (drop (32 * c) places) r3 p2.valid
          (omega (arith, room2, p2.moved, total_bytes_same valid p2)) in
      (
        r4,
        rw (in_buffer, e2, few c below above, e3, e4)
            (ap (λ (vs : List ℕ). ok (vs, r4)) (fields-whole places (32 * c) below p2)),
        Past-whole places (32 * c) below p2 p4,
      )
    where
      in_buffer : leb r.byte_offset (length r.buffer) ≡ true
      in_buffer = le→leb _ _ (omega (arith, valid.room, valid.fits))

      few :
          (c : ℕ)
          → 32 * c ≤ length places
          → length places < 32 * c + 32
          → ltb (length (drop (32 * c) places)) 32 ≡ true
      few c below above = lt→ltb _ _ (omega (arith, length-drop (32 * c) places))

  read_batch_lem :
      (places : List ℕ) (r : BitReader)
      → IsValid r
      → All (Ready size_of) places
      → position r + n * length places ≤ 8 * r.total_bytes
      → (r' : BitReader) × (read_batch size_of n places r
          ≡ ok (fields r.buffer n (length places) (position r), r'))
        × Past n (length places) r r'
  unfolding read_batch
  read_batch_lem places r valid ready room =
      let (i, r1, e1, p1, few, stop) = get_unaligned_lem size_of n word typed places r valid room in
      let room1 = left_room places i (position r) (8 * r.total_bytes) few room in
      let (r4, e4, p4) =
        read_aligned_lem (drop i places) r1 p1.valid (All-drop (Ready size_of) i places ready)
          (omega (arith, room1, p1.moved, total_bytes_same valid p1))
          (λ h. stop (omega (arith, h, length-drop i places))) in
      (
        r4,
        rw (e1, e4) (ap (λ (vs : List ℕ). ok (vs, r4)) (fields-whole places i few p1)),
        Past-whole places i few p1 p4,
      )

-- What `get_batch` reads, by the number that it computes first.
pub get_batch-batch_size :
    (size_of num_bits : ℕ) (batch : List ℕ) (r : BitReader)
    → IsValid r
    → num_bits ≤ 32
    → num_bits ≤ 8 * size_of
    → All (Ready size_of) batch
    → (k : ℕ) × (r' : BitReader) × (k ≡ batch_size num_bits (length batch) r)
      × (get_batch size_of num_bits batch r
          ≡ ok (k, (fields r.buffer num_bits k (position r) ++ drop k batch, r')))
      × Past num_bits k r r'
unfolding get_batch
get_batch-batch_size size_of n batch r valid word typed ready =
    let k = batch_size n (length batch) r in
    let (room, few) = batch_size_room n (length batch) r valid in
    let many : length (take k batch) ≡ k = omega (arith, few, length-take k batch) in
    let (r', e, p) =
      read_batch_lem size_of n word typed (take k batch) r valid
        (All-take (Ready size_of) k batch ready)
        (omega (arith, room, ap (λ (x : ℕ). n * x) many)) in
    (
      k,
      r',
      refl,
      rw (le→leb n 32 word, le→leb n (size_of * 8) (omega arith), e)
          (ap (λ (x : ℕ). ok (k, (fields r.buffer n x (position r) ++ drop k batch, r'))) many),
      subst (λ (x : ℕ). Past n x r r') many p,
    )

-- The number that `get_batch` computes is the greatest that the batch and the reader allow.
batch_size_most :
    (n len : ℕ) (r : BitReader)
    → IsValid r
    → (batch_size n len r ≡ len) ⊎ (8 * r.total_bytes < position r + n * (batch_size n len r + 1))
batch_size_most n len r valid =
    let left = (r.total_bytes - r.byte_offset) * 8 - r.bit_offset in
    elim (Bool-cases (ltb left (n * len))) [
      | inr enough ↦ inl (rw enough refl)
      | inl short ↦
          let positive : 0 < n = some_width n len left (ltb→lt _ _ short) in
          inr (rw short (omega (arith, valid.room, div-add-mod left n, mod-lt left positive)))
    ]
  where
    some_width : (n len x : ℕ) → x < n * len → 0 < n
    some_width zero len x h = absurd (omega (arith, h))
    some_width (suc n) len x h = omega arith

-- `get_batch` into a batch of a type that is wide enough for its width never panics on a valid
-- reader, when the width is 32 at most and the batch, of a type of more than four bytes, holds
-- numbers below 2 ^ 32 before. It reads as many values as the batch has places, or else as many as
-- are left of the reader whole, so that not one more is: never more than either. They are the next
-- fields of the bit string, in the order in which `get_value` would return them, and stand at the
-- front of the batch. The rest of the batch stays, and the reader moves on by these values.
pub get_batch_lem :
    (size_of num_bits : ℕ) (batch : List ℕ) (r : BitReader)
    → IsValid r
    → num_bits ≤ 32
    → num_bits ≤ 8 * size_of
    → All (Ready size_of) batch
    → (k : ℕ) × (r' : BitReader) × (k ≤ length batch)
      × (position r + num_bits * k ≤ 8 * r.total_bytes)
      × ((k ≡ length batch) ⊎ (8 * r.total_bytes < position r + num_bits * (k + 1)))
      × (get_batch size_of num_bits batch r
          ≡ ok (k, (fields r.buffer num_bits k (position r) ++ drop k batch, r')))
      × Past num_bits k r r'
get_batch_lem size_of n batch r valid word typed ready =
    let (k, r', same, e, past) = get_batch-batch_size size_of n batch r valid word typed ready in
    let (room, few) = batch_size_room n (length batch) r valid in
    (
      k,
      r',
      subst (λ (x : ℕ). x ≤ length batch) (sym same) few,
      subst (λ (x : ℕ). position r + n * x ≤ 8 * r.total_bytes) (sym same) room,
      subst (λ (x : ℕ). (x ≡ length batch) ⊎ (8 * r.total_bytes < position r + n * (x + 1)))
          (sym same) (batch_size_most n (length batch) r valid),
      e,
      past,
    )
