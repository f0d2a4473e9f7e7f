-- ===== src/Encodings/Rle/Encode/FlushAll.antt =====
-- src/encodings/rle.rs: `flush`, whatever is not written yet.
use parquet_rs.Encodings.Rle.Encode.Finish.{take_whole, finish_repeat, finish_packed}
use parquet_rs.Encodings.Rle.Encode.Ended.{front_empty}
use parquet_rs.Encodings.Rle.Encode.Flush.{
  closing, filled, flush_packed-closing, flush_packed-filled, Flushed, flush_idle, flush_rest,
}
use parquet_rs.Encodings.Rle.Encoder.{RleEncoder, flush, padded}
use parquet_rs.Encodings.Rle.Format.{Run, IsRun, runs_bytes, runs_values}
use parquet_rs.Encodings.Rle.Encode.Space.{stream, DoFit, times_mono, group_size, room_for_group}
use parquet_rs.Encodings.Rle.Encode.State.{Common, Short, Long, Place-IsOpenAt}
use native.Mathlib.Decide.{dec_le}
use parquet_rs.Prelude.{
  ◌-◌, ℕ, ◌+◌, ◌*◌, ◌/◌, ◌^◌, ◌≤◌, ◌<◌, List, [], ◌++◌, length, length-append, length-take,
  length-replicate, append_assoc, append_nil, take, replicate, All, All-append, All-take,
  All-replicate, ok, ◌≡◌, ◌⊎◌, inl, inr, refl, sym, ap, ap₂, ◌∙◌, arith,
}

module _ (head : List ℕ) (n total : ℕ) (vs : List ℕ) (e : RleEncoder) (c : Common head n total e)
    (runs : List Run) (are_runs : All (IsRun e.bit_width) runs) (do_fit : DoFit e.bit_width runs)
    (within : length vs ≤ total) (limit : total < 2 ^ 32) where
  -- What `flush` returns.
  Ends : Type 0
  Ends =
      (e' : RleEncoder) × (flush e ≡ ok e')
      × (e'.bit_width ≡ e.bit_width)
      × Flushed head ((total + 7) / 8 * group_size e.bit_width) vs e'

  module _ (written : List ℕ) (groups : ℕ) (h : Short head runs written groups vs e) where
    abbrev xs : List ℕ
    xs = take e.num_buffered_values e.buffered_values

    xs_long : length xs ≡ e.num_buffered_values
    xs_long =
        omega (arith, length-take e.num_buffered_values e.buffered_values, c.slots, h.room_left)

    repeated_few : length h.front + e.repeat_count ≡ e.num_buffered_values
    repeated_few = omega (
      arith,
      xs_long,
      ap length h.tail,
      length-append h.front (replicate e.repeat_count e.current_value),
      length-replicate e.repeat_count e.current_value,
    )

    xs_small : All (λ v. v < 2 ^ e.bit_width) xs
    xs_small = All-take (λ v. v < 2 ^ e.bit_width) e.num_buffered_values e.buffered_values c.small

    sizes : length vs ≡ length (runs_values runs) + 8 * groups + e.num_buffered_values
    sizes = omega (
      arith,
      ap length h.all,
      length-append (runs_values runs) (written ++ xs),
      length-append written xs,
      h.place.size,
      xs_long,
    )

    -- Nothing is left.
    nothing : e.num_buffered_values ≡ 0 → groups ≡ 0 → Ends
    unfolding Ends
    nothing none_left zero_groups = (
      e,
      flush_idle e (omega (arith, h.place.count, zero_groups))
          (omega (arith, repeated_few, none_left)) none_left,
      refl,
      record {
        none_packed = omega (arith, h.place.count, zero_groups);
        none_repeated = omega (arith, repeated_few, none_left);
        none_buffered = none_left;
        runs = runs;
        are_runs = are_runs;
        padding = 0;
        short = omega arith;
        values = sym (
            ap (λ l. l ++ []) h.all
            ∙ append_nil _
            ∙ ap (λ l. runs_values runs ++ l)
                (front_empty (written ++ xs) (
                  omega (
                    arith,
                    length-append written xs,
                    h.place.size,
                    xs_long,
                    zero_groups,
                    none_left,
                  )))
            ∙ append_nil (runs_values runs));
        fits = omega (
          arith,
          do_fit,
          times_mono (length (runs_values runs) / 8) ((total + 7) / 8) (group_size e.bit_width)
              (omega (arith, sizes, within)),
        );
        holds = elim h.place.kind [
          | inl (zero_too, empty, between) ↦ between.holds
          | inr (some_groups, inside) ↦ absurd (omega (arith, some_groups, zero_groups))
        ];
      },
    )

    here :
        0 < groups
        → length (runs_bytes e.bit_width runs) + 1 + e.bit_width * groups
          ≤ (total + 7) / 8 * group_size e.bit_width
    here some_groups = omega (
      arith,
      room_for_group e.bit_width (groups - 1) total ((total + 7) / 8 * group_size e.bit_width) runs
          do_fit (omega arith) (omega (arith, sizes, within, some_groups)),
      ap (λ (k : ℕ). e.bit_width * k)
          (let s : groups - 1 + 1 ≡ groups = omega (arith, some_groups) in s),
    )

    -- The run ends where it is.
    ends_here : e.num_buffered_values ≡ 0 → 0 < groups → Ends
    unfolding Ends closing
    ends_here none_left some_groups =
        let e1 : RleEncoder = record e {
          bit_packed_count = e.bit_packed_count + e.num_buffered_values;
        } in
        let whole_size : length (written ++ xs) ≡ 8 * groups =
          omega (arith, length-append written xs, h.place.size, xs_long, none_left) in
        let held : 8 * (length (stream head e.bit_width runs) + 1) + e.bit_width * length written
            ≤ 8 * e.bit_writer.max_bytes =
          elim h.place.kind [
            | inl (zero_groups, empty, between) ↦ absurd (omega (arith, some_groups, zero_groups))
            | inr (more, inside) ↦ omega (arith, inside.holds.place, inside.holds.valid.room)
          ] in
        let (e', done, same, finished) =
          finish_packed head ((total + 7) / 8 * group_size e.bit_width) vs e1 c.narrow c.head_bytes
            runs written groups 0 are_runs (Place-IsOpenAt head runs written groups e h.place)
            (omega (
              arith,
              held,
              ap (λ (k : ℕ). e.bit_width * (length written + k)) (xs_long ∙ none_left),
            ))
            (omega (arith, h.place.few)) (omega (arith, h.place.count, none_left)) whole_size
            h.place.all_small xs_small (here some_groups) (omega arith)
            (sym h.all ∙ sym (append_nil vs)) in
        (
          e',
          flush_rest e (omega (arith, h.place.count, some_groups))
                (inl (omega (arith, h.place.count, some_groups)))
              ∙ flush_packed-closing e none_left
              ∙ done,
          same,
          finished,
        )

    abbrev zeros : List ℕ
    zeros = replicate (8 - e.num_buffered_values) 0

    eight : length (xs ++ zeros) ≡ 8
    eight = omega (
      arith,
      length-append xs zeros,
      length-replicate {A = ℕ} (8 - e.num_buffered_values) 0,
      xs_long,
      h.room_left,
    )

    same_values : take 8 (xs ++ zeros) ≡ xs ++ zeros
    same_values = take_whole (xs ++ zeros) 8 (omega (arith, eight))

    -- What the group is filled up to is what was given, and zeros.
    all_filled : runs_values runs ++ (written ++ take 8 (xs ++ zeros)) ≡ vs ++ zeros
    all_filled =
        ap (λ l. runs_values runs ++ (written ++ l)) same_values
        ∙ ap (λ l. runs_values runs ++ l) (sym (append_assoc written xs zeros))
        ∙ sym (append_assoc (runs_values runs) (written ++ xs) zeros)
        ∙ ap (λ l. l ++ zeros) (sym h.all)

    filled_small : All (λ v. v < 2 ^ e.bit_width) (take 8 (xs ++ zeros))
    filled_small =
        All-take (λ v. v < 2 ^ e.bit_width) 8 (xs ++ zeros)
          (All-append (λ v. v < 2 ^ e.bit_width) xs zeros xs_small
            (All-replicate (λ v. v < 2 ^ e.bit_width) (8 - e.num_buffered_values) 0
              (omega (arith, c.current))))

    -- The last group is filled with zeros.
    fills :
        0 < e.num_buffered_values → (0 < groups) ⊎ (e.repeat_count < e.num_buffered_values) → Ends
    unfolding Ends closing filled
    fills some_left rest =
        let e1 : RleEncoder = record e {
          buffered_values = padded e.num_buffered_values e.buffered_values;
          num_buffered_values = 8;
          bit_packed_count = e.bit_packed_count + 8;
        } in
        let group_room =
          room_for_group e.bit_width groups total (e.bit_writer.max_bytes - length head) runs do_fit
            (omega (arith, c.room)) (omega (arith, sizes, some_left, within)) in
        let (e', done, same, finished) =
          finish_packed head ((total + 7) / 8 * group_size e.bit_width) vs e1 c.narrow c.head_bytes
            runs written (groups + 1) (8 - e.num_buffered_values) are_runs
            (Place-IsOpenAt head runs written groups e h.place)
            (omega (
              arith,
              group_room,
              c.room,
              length-append head (runs_bytes e.bit_width runs),
              ap₂ (λ (a b : ℕ). e.bit_width * (a + b)) h.place.size (ap length same_values ∙ eight),
            ))
            (omega (arith, h.place.few)) (omega (arith, h.place.count))
            (omega (
              arith,
              length-append written (take 8 (xs ++ zeros)),
              h.place.size,
              ap length same_values,
              eight,
            ))
            h.place.all_small filled_small
            (omega (
              arith,
              room_for_group e.bit_width groups total ((total + 7) / 8 * group_size e.bit_width)
                  runs do_fit (omega arith) (omega (arith, sizes, some_left, within)),
            ))
            (omega (arith, some_left)) all_filled in
        (
          e',
          flush_rest e (omega (arith, some_left)) (elim rest [
            | inl some_groups ↦ inl (omega (arith, h.place.count, some_groups))
            | inr fewer ↦ inr fewer
          ])
              ∙ flush_packed-filled e some_left
              ∙ done,
          same,
          finished,
        )

    -- All that is left is one value, some times.
    repeats : 0 < e.num_buffered_values → e.num_buffered_values ≤ e.repeat_count → Ends
    unfolding Ends
    repeats some_left many = elim h.place.kind [
      | inr (some_groups, inside) ↦ fills some_left (inl some_groups)
      | inl (zero_groups, empty, between) ↦
          finish_repeat head n total vs e c runs are_runs do_fit between
            (omega (arith, some_left, many)) (omega (arith, h.place.count, zero_groups))
            (h.all
              ∙ ap₂ (λ a b. runs_values runs ++ (a ++ b)) empty
                  (h.tail
                    ∙ ap (λ l. l ++ replicate e.repeat_count e.current_value)
                        (front_empty h.front (omega (arith, repeated_few, many)))))
            within limit (inl (omega (arith, repeated_few, many)))
    ]

    flush-Short : Ends
    flush-Short = elim (dec_le 1 e.num_buffered_values) [
      | yes some_left ↦ elim (dec_le e.num_buffered_values e.repeat_count) [
        | yes many ↦ repeats some_left many
        | no fewer ↦ fills some_left (inr (omega (arith, fewer)))
      ]
      | no none_left ↦ elim (dec_le 1 groups) [
        | yes some_groups ↦ ends_here (omega (arith, none_left)) some_groups
        | no zero_groups ↦ nothing (omega (arith, none_left)) (omega (arith, zero_groups))
      ]
    ]

  pub flush_cases :
      ((written : List ℕ) × (groups : ℕ) × Short head runs written groups vs e)
        ⊎ Long head runs vs e
      → (e' : RleEncoder) × (flush e ≡ ok e')
        × (e'.bit_width ≡ e.bit_width)
        × Flushed head ((total + 7) / 8 * group_size e.bit_width) vs e'
  unfolding Ends
  flush_cases (inl (written, groups, h)) = flush-Short written groups h
  flush_cases (inr h) =
      finish_repeat head n total vs e c runs are_runs do_fit h.between (omega (arith, h.many))
        h.count h.all within limit (inr h.unbuffered)
