-- ===== src/Encodings/Levels/BitPacked.antt =====
-- src/encodings/levels.rs: levels through the bit-packed encoder, and back.
use parquet_rs.Encodings.Levels.{as_u64}
use parquet_rs.Encodings.Levels.Width.{as_u64_lem}
use parquet_rs.Encodings.Levels.Runs.{All-Ready}
use parquet_rs.Encodings.Levels.Encoder.{put_bit_packed}
use parquet_rs.Encodings.Levels.Decoder.{get_bit_packed}
use parquet_rs.Encodings.Rle.Format.{spell}
use parquet_rs.Encodings.Rle.Bits.{fields-spell}
use parquet_rs.Encodings.Rle.Encode.Holds.{spell-append, if_room}
use parquet_rs.Encodings.Rle.Encode.Ended.{front_empty}
use parquet_rs.BitUtil.Batch.{batch_size, get_batch}
use parquet_rs.BitUtil.Batch.Fields.{fields}
use parquet_rs.BitUtil.Batch.Whole.{get_batch-batch_size}
use parquet_rs.BitUtil.Reader.{BitReader}
use parquet_rs.BitUtil.Reader.Position as Position
use parquet_rs.BitUtil.Writer.{BitWriter, put_value, flush, consume}
use parquet_rs.BitUtil.Writer.Invariant.{IsValid, position, written}
use parquet_rs.BitUtil.Writer.Aligned.{
  flushed, flush_lem, flushed-IsValid, position-flushed, written-flushed,
}
use parquet_rs.BitUtil.Writer.PutValue.{put_value_lem}
use parquet_rs.BitUtil.Writer.Whole.{consume_lem}
use parquet_rs.Prelude.Bytes.{IsByte, from_le}
use parquet_rs.Prelude.{
  ℕ, ◌+◌, ◌-◌, ◌*◌, ◌/◌, ◌^◌, ◌≤◌, ◌<◌, min, List, [], ◌∷◌, ◌++◌, length, length-append,
  length-take, length-drop, append_assoc, append_nil, take, drop, All, some, true, ok, ◌≡◌, sym, ap,
  ap₂, ◌∙◌, subst, arith, bind_to, ltb, le→ltb, if_false,
}

-- The writer holds these values of `n` bits, and nothing else.
pub record Spells (n : ℕ) (vs : List ℕ) (w : BitWriter) : Type 0 where
  pub valid : IsValid w
  pub place : position w ≡ n * length vs
  pub held : written w ≡ spell n vs

put_level :
    (n : ℕ) (vs : List ℕ) (x : ℕ) (w : BitWriter)
    → n ≤ 64
    → x < 2 ^ n
    → Spells n vs w
    → n * (length vs + 1) ≤ 8 * w.max_bytes
    → (w' : BitWriter) × (put_value x n w ≡ ok (true, w'))
      × Spells n (vs ++ x ∷ []) w'
      × (w'.max_bytes ≡ w.max_bytes)
put_level n vs x w narrow small s room =
    let (w', put, a) =
      if_room _ _ w.max_bytes (position w + n) (omega (arith, s.place, room))
        (put_value_lem x n w s.valid small narrow) in
    (
      w',
      put,
      record {
        valid = a.valid;
        place = omega (arith, a.longer, s.place, ap (λ (k : ℕ). n * k) (length-append vs (x ∷ [])));
        held =
            a.value
            ∙ ap₂ (λ (t k : ℕ). t + 2 ^ k * x) s.held s.place
            ∙ ap (λ (t : ℕ). spell n vs + 2 ^ (n * length vs) * t)
                (let e : x ≡ x + 2 ^ n * 0 = omega arith in e)
            ∙ sym (spell-append n vs (x ∷ []));
      },
      a.same_room,
    )

pub put_bit_packed_lem :
    (n : ℕ) (vs xs : List ℕ) (k : ℕ) (w : BitWriter)
    → n ≤ 64
    → All (λ v. (v < 2 ^ n) × (v < 2 ^ 15)) xs
    → Spells n vs w
    → n * (length vs + length xs) ≤ 8 * w.max_bytes
    → (w' : BitWriter) × (put_bit_packed n xs k w ≡ ok (k + length xs, w')) × Spells n (vs ++ xs) w'
unfolding put_bit_packed
put_bit_packed_lem n vs [] k w narrow small s room = (
  w,
  ap (λ (j : ℕ). ok (j, w)) (let q : k ≡ k + 0 = omega arith in q),
  subst (λ l. Spells n l w) (sym (append_nil vs)) s,
)
put_bit_packed_lem n vs (x ∷ xs) k w narrow small s room =
    let (w1, first, s1, same) = put_level n vs x w narrow small.0.0 s (omega (arith, room)) in
    let (w2, others, s2) = put_bit_packed_lem n (vs ++ x ∷ []) xs (k + 1) w1 narrow small.1 s1 (
      omega (arith, room, same, ap (λ (j : ℕ). n * (j + length xs)) (length-append vs (x ∷ [])))) in
    (
      w2,
      bind_to (put_value (as_u64 x) n w) (true, w1) _
          (ap (λ v. put_value v n w) (as_u64_lem x small.0.1) ∙ first)
          (others
            ∙ ap (λ (j : ℕ). ok (j, w2))
                (let q : k + 1 + length xs ≡ k + length (x ∷ xs) = omega arith in q)),
      subst (λ l. Spells n l w2) (append_assoc vs (x ∷ []) xs) s2,
    )

-- A flushed writer hands over the values, padded with zero bits.
pub consume-flushed :
    (n : ℕ) (vs : List ℕ) (w : BitWriter)
    → Spells n vs w
    → (bytes : List ℕ) × (flush w ≡ ok (flushed w))
      × (consume (flushed w) ≡ ok bytes)
      × All IsByte bytes
      × (length bytes ≡ (n * length vs + 7) / 8)
      × (from_le bytes ≡ spell n vs)
consume-flushed n vs w s =
    let (bytes, done, are_bytes, size, same) =
      consume_lem (flushed w) (flushed-IsValid w s.valid) in
    (
      bytes,
      flush_lem w s.valid,
      done,
      are_bytes,
      omega (arith, size, position-flushed w s.valid, s.place),
      same ∙ written-flushed w s.valid ∙ s.held,
    )

-- A reader that stands before the values.
module _ (n : ℕ) (levels places : List ℕ) (r : BitReader) (narrow : n ≤ 16)
    (small : All (λ v. v < 2 ^ n) levels) (same : length places ≡ length levels)
    (valid : Position.IsValid r) (start : Position.position r ≡ 0)
    (size : 8 * r.total_bytes ≡ (n * length levels + 7) / 8 * 8)
    (value : from_le r.buffer ≡ spell n levels) where
  abbrev read_places : List ℕ
  read_places = take (min (length levels) (length places)) places

  read_places_long : length read_places ≡ length levels
  read_places_long = omega (arith, length-take (min (length levels) (length places)) places, same)

  all_places : batch_size n (length read_places) r ≡ length levels
  all_places =
      if_false (ltb ((r.total_bytes - r.byte_offset) * 8 - r.bit_offset) (n * length read_places)) _
        _ (le→ltb _ _ (omega (arith, start, size, ap (λ (k : ℕ). n * k) read_places_long)))
      ∙ read_places_long

  fields_lem : (k : ℕ) → k ≡ length levels → fields r.buffer n k (Position.position r) ≡ levels
  fields_lem k q =
      ap₂ (λ (j p : ℕ). fields r.buffer n j p) q start
      ∙ fields-spell r.buffer n 0 levels 0 small (omega (arith, value))

  none_over : (k j : ℕ) (l : List ℕ) → length l ≤ k → drop k l ≡ []
  none_over k j l h = front_empty (drop k l) (omega (arith, length-drop k l, h))

  pub get_bit_packed_lem :
      (r' : BitReader) × (get_bit_packed (some (length levels)) n places r
        ≡ ok (length levels, (levels, (0, r'))))
  unfolding get_bit_packed
  get_bit_packed_lem =
      let (k, r', counted, read, past) =
        get_batch-batch_size 2 n read_places r valid (omega (arith, narrow)) (omega (arith, narrow))
          (All-Ready read_places) in
      let all : k ≡ length levels = counted ∙ all_places in
      let rest : drop (min (length levels) (length places)) places ≡ [] =
        none_over (min (length levels) (length places)) 0 places (omega (arith, same)) in
      let over : drop k read_places ≡ [] =
        none_over k 0 read_places (omega (arith, all, read_places_long)) in
      (
        r',
        bind_to (get_batch 2 n read_places r) _ _ read (
            ap (λ l. ok (k, (l, (length levels - k, r'))))
              (ap₂ (λ a b. a ++ b) (ap₂ (λ a b. a ++ b) (fields_lem k all) over ∙ append_nil levels)
                  rest
                ∙ append_nil levels)
            ∙ ap₂ (λ (a b : ℕ). ok (a, (levels, (b, r')))) all
                (let q : length levels - k ≡ 0 = omega (arith, all) in q)),
      )
