-- ===== src/Encodings/Rle/Encode/Buffer.antt =====
-- src/encodings/rle.rs: `flush_buffered_values`, once eight values are buffered.
use parquet_rs.Encodings.Rle.Encoder.{RleEncoder, flush_buffered_values}
use parquet_rs.Encodings.Rle.Encode.Space.{stream, stream-IsByte}
use parquet_rs.Encodings.Rle.Format.{Run, packed, IsRun, run_bytes, runs_bytes, runs_values}
use parquet_rs.Encodings.Rle.Encode.Holds.{Holds}
use parquet_rs.Encodings.Rle.Encode.Space.{DoFit, room_for_group}
use parquet_rs.Encodings.Rle.Encode.Packed.{flush_open, flush_closed}
use parquet_rs.Encodings.Rle.Encode.State.{Common, Inside, Place, Encoding, Place-IsOpenAt}
use native.Mathlib.Decide.{dec_le}
use parquet_rs.Prelude.{
  ◌-◌, Bool, ℕ, ◌+◌, ◌*◌, ◌/◌, ◌%◌, ◌^◌, ◌≤◌, ◌<◌, List, [], ◌++◌, length, length-append,
  length-take, length-replicate, append_nil, take, replicate, All, All-append, All-take, none, some,
  true, false, ok, ◌≡◌, inl, inr, refl, sym, ap, ap₂, ◌∙◌, subst, arith, bind_to, leb, ltb, ◌==◌,
  ==_iff, le→leb, lt→ltb, le→ltb, gt→leb,
}
use parquet_rs.Encodings.Rle.Encode.Ended.{
  front_empty, ended, Ends, ended-IsRun, ended-DoFit, ended-Holds, ended_values, Common-record,
}

module _ (head : List ℕ) (n total : ℕ) (vs : List ℕ) (e : RleEncoder) (c : Common head n total e)
    (runs : List Run) (written : List ℕ) (groups : ℕ) (are_runs : All (IsRun e.bit_width) runs)
    (do_fit : DoFit e.bit_width runs) (place : Place head runs written groups e)
    (eight : e.num_buffered_values ≡ 8) (front : List ℕ)
    (tail : take e.num_buffered_values e.buffered_values
      ≡ front ++ replicate e.repeat_count e.current_value)
    (all : vs ≡ runs_values runs ++ (written ++ take e.num_buffered_values e.buffered_values))
    (within : length vs ≤ total) where
  abbrev xs : List ℕ
  xs = take e.num_buffered_values e.buffered_values

  eight_long : length xs ≡ 8
  eight_long = omega (arith, length-take e.num_buffered_values e.buffered_values, eight, c.slots)

  all_same : 8 ≤ e.repeat_count → xs ≡ replicate e.repeat_count e.current_value
  all_same many =
      let sizes : length front ≡ 0 = omega (
        arith,
        eight_long,
        ap length tail,
        length-append front (replicate e.repeat_count e.current_value),
        length-replicate e.repeat_count e.current_value,
        many,
      ) in
      tail ∙ ap (λ l. l ++ replicate e.repeat_count e.current_value) (front_empty front sizes)

  full_repeat-Inside :
      8 ≤ e.repeat_count
      → 0 < groups
      → Inside head runs written e
      → (e' : RleEncoder) × (flush_buffered_values e ≡ ok e') × Encoding head n total vs e'
  unfolding flush_buffered_values
  full_repeat-Inside many some_groups inside =
      let e1 : RleEncoder = record e { num_buffered_values = 0 } in
      let whole : length (written ++ []) ≡ 8 * groups =
        ap length (append_nil written) ∙ place.size in
      let (w, done, holds, same) =
        flush_closed (stream head e.bit_width runs) written e1 (inr (inside.there, inside.holds))
          c.narrow tt (omega (arith, inside.holds.place, inside.holds.valid.room)) groups
          (omega (arith, place.few)) place.count whole place.all_small
          (stream-IsByte head e.bit_width runs c.head_bytes) in
      let busy : ltb 0 e.bit_packed_count ≡ true =
        lt→ltb 0 e.bit_packed_count (omega (arith, place.count, some_groups)) in
      let even : (e.bit_packed_count % 8 == 0) ≡ true =
        (==_iff _ _).1 (omega (arith, place.count)) in
      let ends : Ends e.bit_width runs written groups = record {
        are_runs = are_runs;
        do_fit = do_fit;
        some_groups = some_groups;
        few = omega (arith, place.few);
        size = place.size;
        small = place.all_small;
      } in
      (
        record e {
          bit_writer = w;
          num_buffered_values = 0;
          indicator_byte_pos = none;
          bit_packed_count = 0;
        },
        rw (le→leb 8 e.repeat_count many, busy, even) done,
        record {
          common = Common-record head n total e w 0 e.repeat_count 0 none c same;
          runs = ended runs written groups;
          are_runs = ended-IsRun e.bit_width runs written groups ends;
          do_fit = ended-DoFit e.bit_width runs written groups ends;
          state = inr (record {
            between = record {
              nowhere = refl;
              holds = ended-Holds head e.bit_width runs written groups w (
                  subst
                    (λ l.
                      Holds
                        (stream head e.bit_width runs ++ run_bytes e.bit_width (packed groups l)) w)
                    (append_nil written) holds);
            };
            count = refl;
            unbuffered = refl;
            many = many;
            all =
                all
                ∙ ap (λ l. runs_values runs ++ (written ++ l)) (all_same many)
                ∙ sym (ended_values runs written groups (replicate e.repeat_count e.current_value));
          });
        },
      )

  full_repeat :
      8 ≤ e.repeat_count
      → (e' : RleEncoder) × (flush_buffered_values e ≡ ok e') × Encoding head n total vs e'
  unfolding flush_buffered_values
  full_repeat many = elim place.kind [
    | inl (zero_groups, empty, between) ↦
        let idle : ltb 0 e.bit_packed_count ≡ false =
          le→ltb 0 e.bit_packed_count (omega (arith, place.count, zero_groups)) in
        (
          record e { num_buffered_values = 0 },
          rw (le→leb 8 e.repeat_count many, idle) refl,
          record {
            common =
                Common-record head n total e e.bit_writer 0 e.repeat_count e.bit_packed_count
                  e.indicator_byte_pos c refl;
            runs = runs;
            are_runs = are_runs;
            do_fit = do_fit;
            state = inr (record {
              between = record { nowhere = between.nowhere; holds = between.holds };
              count = omega (arith, place.count, zero_groups);
              unbuffered = refl;
              many = many;
              all = all ∙ ap₂ (λ a b. runs_values runs ++ (a ++ b)) empty (all_same many);
            });
          },
        )
    | inr (some_groups, inside) ↦ full_repeat-Inside many some_groups inside
  ]

  values_before : length (runs_values runs) + 8 * groups < total
  values_before = omega (
    arith,
    within,
    ap length all,
    length-append (runs_values runs) (written ++ xs),
    length-append written xs,
    place.size,
    eight_long,
  )

  group_room :
      8 * (length (stream head e.bit_width runs) + 1) + e.bit_width * (length written + length xs)
      ≤ 8 * e.bit_writer.max_bytes
  group_room = omega (
    arith,
    room_for_group e.bit_width groups total (e.bit_writer.max_bytes - length head) runs do_fit
        (omega (arith, c.room)) values_before,
    c.room,
    length-append head (runs_bytes e.bit_width runs),
    ap₂ (λ (a b : ℕ). e.bit_width * (a + b)) place.size eight_long,
  )

  -- The encoder that `flush_group` is called with.
  counted : RleEncoder
  counted = record e { bit_packed_count = e.bit_packed_count + e.num_buffered_values }

  whole_size : length (written ++ xs) ≡ 8 * (groups + 1)
  whole_size = omega (arith, length-append written xs, place.size, eight_long)

  xs_small : All (λ v. v < 2 ^ e.bit_width) xs
  xs_small = All-take (λ v. v < 2 ^ e.bit_width) e.num_buffered_values e.buffered_values c.small

  full_group_open :
      e.repeat_count < 8
      → groups < 62
      → (e' : RleEncoder) × (flush_buffered_values e ≡ ok e') × Encoding head n total vs e'
  unfolding flush_buffered_values counted
  full_group_open few_same more =
      let opened = Place-IsOpenAt head runs written groups e place in
      let short : leb 8 e.repeat_count ≡ false = gt→leb 8 e.repeat_count few_same in
      let (w, done, holds, same) =
        flush_open (stream head e.bit_width runs) written counted opened c.narrow xs_small
          group_room in
      let test : leb 64 ((e.bit_packed_count + e.num_buffered_values) / 8 + 1) ≡ false =
        gt→leb _ _ (omega (arith, place.count, eight, more)) in
      (
        record e {
          bit_writer = w;
          num_buffered_values = 0;
          repeat_count = 0;
          bit_packed_count = e.bit_packed_count + e.num_buffered_values;
          indicator_byte_pos = some (length (stream head e.bit_width runs));
        },
        rw (short, test) (bind_to _ _ _ done refl),
        record {
          common =
              Common-record head n total e w 0 0 (e.bit_packed_count + e.num_buffered_values)
                (some (length (stream head e.bit_width runs))) c same;
          runs = runs;
          are_runs = are_runs;
          do_fit = do_fit;
          state = inl (
            written ++ xs,
            groups + 1,
            record {
              place = record {
                count = omega (arith, place.count, eight);
                size = whole_size;
                few = omega (arith, more);
                all_small =
                    All-append (λ v. v < 2 ^ e.bit_width) written xs place.all_small xs_small;
                kind = inr (omega arith, record { there = refl; holds = holds });
              };
              room_left = omega arith;
              front = [];
              tail = refl;
              all = all ∙ ap (λ l. runs_values runs ++ l) (sym (append_nil (written ++ xs)));
            },
          );
        },
      )

  full_group_last :
      e.repeat_count < 8
      → 62 ≤ groups
      → (e' : RleEncoder) × (flush_buffered_values e ≡ ok e') × Encoding head n total vs e'
  unfolding flush_buffered_values counted
  full_group_last few_same last =
      let opened = Place-IsOpenAt head runs written groups e place in
      let short : leb 8 e.repeat_count ≡ false = gt→leb 8 e.repeat_count few_same in
      let (w, done, holds, same) =
        flush_closed (stream head e.bit_width runs) written counted opened c.narrow xs_small
          group_room (groups + 1) (omega (arith, place.few)) (omega (arith, place.count, eight))
          whole_size place.all_small (stream-IsByte head e.bit_width runs c.head_bytes) in
      let test : leb 64 ((e.bit_packed_count + e.num_buffered_values) / 8 + 1) ≡ true =
        le→leb _ _ (omega (arith, place.count, eight, last)) in
      let somewhere : (elim e.indicator_byte_pos as (λ x. Bool) [ none ↦ false | some pos ↦ true ])
          ≡ true =
        elim place.kind [
          | inl (zero_groups, empty, between) ↦ absurd (omega (arith, last, zero_groups))
          | inr (some_groups, inside) ↦
              ap (λ o. elim o as (λ x. Bool) [ none ↦ false | some pos ↦ true ]) inside.there
        ] in
      let ends : Ends e.bit_width runs (written ++ xs) (groups + 1) = record {
        are_runs = are_runs;
        do_fit = do_fit;
        some_groups = omega arith;
        few = omega (arith, place.few);
        size = whole_size;
        small = All-append (λ v. v < 2 ^ e.bit_width) written xs place.all_small xs_small;
      } in
      (
        record e {
          bit_writer = w;
          num_buffered_values = 0;
          repeat_count = 0;
          bit_packed_count = 0;
          indicator_byte_pos = none;
        },
        rw (short, test, somewhere) (bind_to _ _ _ done refl),
        record {
          common = Common-record head n total e w 0 0 0 none c same;
          runs = ended runs (written ++ xs) (groups + 1);
          are_runs = ended-IsRun e.bit_width runs (written ++ xs) (groups + 1) ends;
          do_fit = ended-DoFit e.bit_width runs (written ++ xs) (groups + 1) ends;
          state = inl (
            [],
            0,
            record {
              place = record {
                count = refl;
                size = refl;
                few = omega arith;
                all_small = tt;
                kind = inl (
                  refl,
                  refl,
                  record {
                    nowhere = refl;
                    holds = ended-Holds head e.bit_width runs (written ++ xs) (groups + 1) w holds;
                  },
                );
              };
              room_left = omega arith;
              front = [];
              tail = refl;
              all =
                  all
                  ∙ ap (λ l. runs_values runs ++ l) (sym (append_nil (written ++ xs)))
                  ∙ sym (ended_values runs (written ++ xs) (groups + 1) []);
            },
          );
        },
      )

  -- Eight buffered values are counted as a run of equal values, or written as a group.
  pub flush_buffered_values_lem :
      (e' : RleEncoder) × (flush_buffered_values e ≡ ok e') × Encoding head n total vs e'
  flush_buffered_values_lem = elim (dec_le 8 e.repeat_count) [
    | yes many ↦ full_repeat many
    | no few_same ↦ elim (dec_le 62 groups) [
      | yes last ↦ full_group_last (omega (arith, few_same)) last
      | no more ↦ full_group_open (omega (arith, few_same)) (omega (arith, more))
    ]
  ]
