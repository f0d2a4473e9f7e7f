-- ===== src/Encodings/Rle/Encode/Put.antt =====
-- src/encodings/rle.rs: `put` takes one more value.
use parquet_rs.Encodings.Rle.Encoder.{RleEncoder, buffer_value, flush_buffered_values}
use parquet_rs.Encodings.Rle.Format.{Run, IsRun, runs_values}
use parquet_rs.Encodings.Rle.Encode.State.{Common, Place, Encoding}
use parquet_rs.Encodings.Rle.Encode.Buffer.{flush_buffered_values_lem}
use parquet_rs.Encodings.Rle.Encode.Space.{DoFit}
use native.Mathlib.Decide.{dec_le}
use parquet_rs.Prelude.{
  lt→==, Bool, ℕ, ◌+◌, ◌%◌, ◌^◌, ◌<◌, List, [], ◌∷◌, ◌++◌, length, length-append, append_assoc,
  take, replicate, All, true, false, ok, ◌≡◌, inl, inr, refl, sym, ap, ◌∙◌, arith, ◌==◌, ==_iff,
  lt→ltb, set, length-set, All-set, take-set_suc, ◌>>◌, assert,
}

-- The writer and the run that is being written do not depend on the values that are buffered.
pub Place-record :
    (head : List ℕ) (runs : List Run) (written : List ℕ) (groups : ℕ) (e : RleEncoder) (bs : List ℕ)
    (k r cur : ℕ)
    → Place head runs written groups e
    → Place head runs written groups (record e {
      buffered_values = bs;
      num_buffered_values = k;
      repeat_count = r;
      current_value = cur;
    })
Place-record head runs written groups e bs k r cur p = record {
  count = p.count;
  size = p.size;
  few = p.few;
  all_small = p.all_small;
  kind = elim p.kind [
    | inl (zero_groups, empty, between) ↦
        inl (zero_groups, empty, record { nowhere = between.nowhere; holds = between.holds })
    | inr (some_groups, inside) ↦
        inr (some_groups, record { there = inside.there; holds = inside.holds })
  ];
}

pub Common-buffered :
    (head : List ℕ) (n total : ℕ) (e : RleEncoder) (bs : List ℕ) (k r cur : ℕ)
    → Common head n total e
    → length bs ≡ 8
    → All (λ v. v < 2 ^ e.bit_width) bs
    → cur < 2 ^ e.bit_width
    → Common head n total (record e {
      buffered_values = bs;
      num_buffered_values = k;
      repeat_count = r;
      current_value = cur;
    })
Common-buffered head n total e bs k r cur c size small now = record {
  head_bytes = c.head_bytes;
  width = c.width;
  narrow = c.narrow;
  not_full = c.not_full;
  slots = size;
  small = small;
  current = now;
  room = c.room;
}

-- The value `v` goes into a buffer that has room.
module _ (head : List ℕ) (n total : ℕ) (vs : List ℕ) (v : ℕ) (e : RleEncoder)
    (c : Common head n total e) (runs : List Run) (written : List ℕ) (groups : ℕ)
    (are_runs : All (IsRun e.bit_width) runs) (do_fit : DoFit e.bit_width runs)
    (place : Place head runs written groups e) (few : e.num_buffered_values < 8)
    (small : v < 2 ^ e.bit_width) (front : List ℕ)
    (tail : take e.num_buffered_values e.buffered_values ++ v ∷ []
      ≡ front ++ replicate e.repeat_count e.current_value)
    (all : vs ≡ runs_values runs ++ (written ++ take e.num_buffered_values e.buffered_values))
    (within : length vs < total) where
  abbrev buffered : RleEncoder
  buffered = record e {
    buffered_values = set e.buffered_values e.num_buffered_values v;
    num_buffered_values = e.num_buffered_values + 1;
  }

  buffered-Common : Common head n total buffered
  buffered-Common =
      Common-buffered head n total e (set e.buffered_values e.num_buffered_values v)
        (e.num_buffered_values + 1) e.repeat_count e.current_value c
        (length-set e.buffered_values e.num_buffered_values v ∙ c.slots)
        (All-set (λ x. x < 2 ^ e.bit_width) e.buffered_values e.num_buffered_values v c.small small)
        c.current

  buffered-Place : Place head runs written groups buffered
  buffered-Place =
      Place-record head runs written groups e (set e.buffered_values e.num_buffered_values v)
        (e.num_buffered_values + 1) e.repeat_count e.current_value place

  one_more :
      take (e.num_buffered_values + 1) (set e.buffered_values e.num_buffered_values v)
      ≡ take e.num_buffered_values e.buffered_values ++ v ∷ []
  one_more = take-set_suc e.buffered_values e.num_buffered_values v (omega (arith, few, c.slots))

  all_more :
      vs ++ v ∷ []
      ≡ runs_values runs
        ++ (written
            ++ take (e.num_buffered_values + 1) (set e.buffered_values e.num_buffered_values v))
  all_more =
      ap (λ l. l ++ v ∷ []) all
      ∙ append_assoc (runs_values runs) (written ++ take e.num_buffered_values e.buffered_values)
          (v ∷ [])
      ∙ ap (λ l. runs_values runs ++ l)
          (append_assoc written (take e.num_buffered_values e.buffered_values) (v ∷ []))
      ∙ ap (λ l. runs_values runs ++ (written ++ l)) (sym one_more)

  last_place :
      e.num_buffered_values + 1 ≡ 8
      → (e' : RleEncoder) × (buffer_value v e ≡ ok e') × Encoding head n total (vs ++ v ∷ []) e'
  unfolding buffer_value
  last_place eight =
      let (e', done, h) =
        flush_buffered_values_lem head n total (vs ++ v ∷ []) buffered buffered-Common runs written
          groups are_runs do_fit buffered-Place eight front (one_more ∙ tail) all_more
          (omega (arith, within, length-append vs (v ∷ []))) in
      let even : (e.bit_packed_count % 8 == 0) ≡ true =
        (==_iff _ _).1 (omega (arith, place.count)) in
      let full : (e.num_buffered_values + 1 == 8) ≡ true = (==_iff _ _).1 eight in
      (
        e',
        rw (lt→ltb e.num_buffered_values 8 few, full)
            (ap (λ (t : Bool). assert t >> flush_buffered_values buffered) even ∙ done),
        h,
      )

  earlier_place :
      e.num_buffered_values + 1 < 8
      → (e' : RleEncoder) × (buffer_value v e ≡ ok e') × Encoding head n total (vs ++ v ∷ []) e'
  unfolding buffer_value
  earlier_place less =
      let room_left : (e.num_buffered_values + 1 == 8) ≡ false = lt→== _ _ less in
      (
        buffered,
        rw (lt→ltb e.num_buffered_values 8 few, room_left) refl,
        record {
          common = buffered-Common;
          runs = runs;
          are_runs = are_runs;
          do_fit = do_fit;
          state = inl (
            written,
            groups,
            record {
              place = buffered-Place;
              room_left = omega (arith, few, less);
              front = front;
              tail = one_more ∙ tail;
              all = all_more;
            },
          );
        },
      )

  pub buffer_value_lem :
      (e' : RleEncoder) × (buffer_value v e ≡ ok e') × Encoding head n total (vs ++ v ∷ []) e'
  buffer_value_lem = elim (dec_le 8 (e.num_buffered_values + 1)) [
    | yes eight ↦ last_place (omega (arith, few, eight))
    | no less ↦ earlier_place (omega (arith, less))
  ]
