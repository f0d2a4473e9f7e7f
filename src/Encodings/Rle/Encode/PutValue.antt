-- ===== src/Encodings/Rle/Encode/PutValue.antt =====
-- src/encodings/rle.rs: `put` takes the current value once more, or another one.
use parquet_rs.Encodings.Rle.Encode.Put.{Common-buffered, Place-record, buffer_value_lem}
use parquet_rs.Encodings.Rle.Encoder.{RleEncoder, put, buffer_value, start_value, flush_rle_run}
use parquet_rs.Encodings.Rle.Format.{Run, repeated, IsRun, runs_values}
use parquet_rs.Encodings.Rle.Encode.State.{Common, Short, Long, Encoding}
use parquet_rs.Encodings.Rle.Encode.Ended.{Common-record}
use parquet_rs.Encodings.Rle.Encode.Space.{DoFit, DoFit-repeated, runs_values-snoc}
use parquet_rs.Encodings.Rle.Encode.Repeat.{Repeat, flush_rle_run-Repeat}
use parquet_rs.Prelude.{
  gt→leb, if_true, if_false, Bool, ℕ, ◌+◌, ◌^◌, ◌≤◌, ◌<◌, List, [], ◌∷◌, ◌++◌, length,
  length-append, length-take, length-replicate, append_assoc, append_nil, take, replicate, All,
  true, false, ok, ◌≡◌, ◌⊎◌, inl, inr, refl, sym, ap, ◌∙◌, arith, bind_to, if◌then◌else◌, leb, ltb,
  ◌==◌, ==_iff, le→leb, lt→ltb, le→ltb, Bool-cases, replicate_snoc, ◌>>=◌, ◌>>◌, assert,
}

-- What `put` does, by its tests.
module _ (v : ℕ) (e : RleEncoder) (open_buffer : e.buffer_full ≡ false) where
  put_counted :
      (e.current_value == v) ≡ true
      → ltb 8 (e.repeat_count + 1) ≡ true
      → put v e ≡ ok (true, record e { repeat_count = e.repeat_count + 1 })
  unfolding put
  put_counted same many =
      if_false e.buffer_full _ _ open_buffer
      ∙ if_true (e.current_value == v) _ _ same
      ∙ if_true (ltb 8 (e.repeat_count + 1)) _ _ many

  put_same :
      (e.current_value == v) ≡ true
      → ltb 8 (e.repeat_count + 1) ≡ false
      → put v e
        ≡ (buffer_value v (record e { repeat_count = e.repeat_count + 1 }) >>= λ e2. ok (true, e2))
  unfolding put
  put_same same few =
      if_false e.buffer_full _ _ open_buffer
      ∙ if_true (e.current_value == v) _ _ same
      ∙ if_false (ltb 8 (e.repeat_count + 1)) _ _ few

  put_other :
      (e.current_value == v) ≡ false
      → put v e ≡ (start_value v e >>= λ e1. buffer_value v e1 >>= λ e2. ok (true, e2))
  unfolding put
  put_other other =
      if_false e.buffer_full _ _ open_buffer ∙ if_false (e.current_value == v) _ _ other

-- An encoder that has been given `vs`, fewer than `total` values.
module _ (head : List ℕ) (n total : ℕ) (vs : List ℕ) (v : ℕ) (e : RleEncoder)
    (c : Common head n total e) (runs : List Run) (are_runs : All (IsRun e.bit_width) runs)
    (do_fit : DoFit e.bit_width runs) (small : v < 2 ^ e.bit_width) (within : length vs < total)
    (limit : total < 2 ^ 32) where
  -- The value is the current one, and fewer than eight are buffered.
  same-Short :
      (written : List ℕ) (groups : ℕ)
      → Short head runs written groups vs e
      → e.current_value ≡ v
      → (e' : RleEncoder) × (put v e ≡ ok (true, e')) × Encoding head n total (vs ++ v ∷ []) e'
  same-Short written groups h same =
      let few : e.repeat_count < 8 = omega (
        arith,
        h.room_left,
        ap length h.tail,
        length-append h.front (replicate e.repeat_count e.current_value),
        length-replicate e.repeat_count e.current_value,
        length-take e.num_buffered_values e.buffered_values,
      ) in
      let e1 : RleEncoder = record e { repeat_count = e.repeat_count + 1 } in
      let (e', done, h') =
        buffer_value_lem head n total vs v e1
          (Common-buffered head n total e e.buffered_values e.num_buffered_values
            (e.repeat_count + 1) e.current_value c c.slots c.small c.current)
          runs written groups are_runs do_fit
          (Place-record head runs written groups e e.buffered_values e.num_buffered_values
            (e.repeat_count + 1) e.current_value h.place)
          h.room_left small h.front
          (ap (λ l. l ++ v ∷ []) h.tail
            ∙ append_assoc h.front (replicate e.repeat_count e.current_value) (v ∷ [])
            ∙ ap (λ l. h.front ++ l)
                (ap (λ x. replicate e.repeat_count e.current_value ++ x ∷ []) (sym same)
                  ∙ replicate_snoc e.repeat_count e.current_value))
          h.all within in
      let test : (e.current_value == v) ≡ true = (==_iff _ _).1 same in
      let short : ltb 8 (e.repeat_count + 1) ≡ false = le→ltb _ _ (omega (arith, few)) in
      (e', put_same v e c.not_full test short ∙ bind_to (buffer_value v e1) e' _ done refl, h')

  -- One more of many equal values is only counted.
  same-Long :
      Long head runs vs e
      → e.current_value ≡ v
      → (e' : RleEncoder) × (put v e ≡ ok (true, e')) × Encoding head n total (vs ++ v ∷ []) e'
  same-Long h same =
      let test : (e.current_value == v) ≡ true = (==_iff _ _).1 same in
      let counted : ltb 8 (e.repeat_count + 1) ≡ true = lt→ltb _ _ (omega (arith, h.many)) in
      (
        record e { repeat_count = e.repeat_count + 1 },
        put_counted v e c.not_full test counted,
        record {
          common =
              Common-buffered head n total e e.buffered_values e.num_buffered_values
                (e.repeat_count + 1) e.current_value c c.slots c.small c.current;
          runs = runs;
          are_runs = are_runs;
          do_fit = do_fit;
          state = inr (record {
            between = record { nowhere = h.between.nowhere; holds = h.between.holds };
            count = h.count;
            unbuffered = h.unbuffered;
            many = omega (arith, h.many);
            all =
                ap (λ l. l ++ v ∷ []) h.all
                ∙ append_assoc (runs_values runs) (replicate e.repeat_count e.current_value)
                    (v ∷ [])
                ∙ ap (λ l. runs_values runs ++ l)
                    (ap (λ x. replicate e.repeat_count e.current_value ++ x ∷ []) (sym same)
                      ∙ replicate_snoc e.repeat_count e.current_value);
          });
        },
      )

  started :
      e.repeat_count < 8 → start_value v e ≡ ok (record e { repeat_count = 1; current_value = v })
  unfolding start_value
  started few =
      ap
        (λ (t : Bool).
          (if t then (do assert (e.bit_packed_count == 0); flush_rle_run e) else ok e) >>= λ e1.
          ok (record e1 { repeat_count = 1; current_value = v }))
        (gt→leb _ _ few)

  -- A new value, and fewer than eight are buffered.
  new-Short :
      (written : List ℕ) (groups : ℕ)
      → Short head runs written groups vs e
      → (e.current_value == v) ≡ false
      → (e' : RleEncoder) × (put v e ≡ ok (true, e')) × Encoding head n total (vs ++ v ∷ []) e'
  new-Short written groups h test =
      let few : e.repeat_count < 8 = omega (
        arith,
        h.room_left,
        ap length h.tail,
        length-append h.front (replicate e.repeat_count e.current_value),
        length-replicate e.repeat_count e.current_value,
        length-take e.num_buffered_values e.buffered_values,
      ) in
      let e1 : RleEncoder = record e { repeat_count = 1; current_value = v } in
      let (e', done, h') =
        buffer_value_lem head n total vs v e1
          (Common-buffered head n total e e.buffered_values e.num_buffered_values 1 v c c.slots
            c.small small)
          runs written groups are_runs do_fit
          (Place-record head runs written groups e e.buffered_values e.num_buffered_values 1 v
            h.place)
          h.room_left small (take e.num_buffered_values e.buffered_values) refl h.all within in
      (
        e',
        put_other v e c.not_full test
            ∙ bind_to (start_value v e) e1 _ (started few)
                (bind_to (buffer_value v e1) e' _ done refl),
        h',
      )

  restarted :
      (r : Repeat head runs e)
      → 8 ≤ e.repeat_count
      → e.bit_packed_count ≡ 0
      → start_value v e
        ≡ ok (record e {
          bit_writer = r.writer;
          num_buffered_values = 0;
          repeat_count = 1;
          current_value = v;
        })
  unfolding start_value
  restarted r many none_packed =
      bind_to
        (if leb 8 e.repeat_count
          then (do assert (e.bit_packed_count == 0); flush_rle_run e)
          else ok e)
        (record e { bit_writer = r.writer; num_buffered_values = 0; repeat_count = 0 }) _
        (if_true (leb 8 e.repeat_count) _ _ (le→leb _ _ many)
          ∙ ap (λ (t : Bool). assert t >> flush_rle_run e) ((==_iff _ _).1 none_packed)
          ∙ r.done)
        refl

  -- A new value ends the run of many equal values.
  new-Long :
      Long head runs vs e
      → (e.current_value == v) ≡ false
      → (e' : RleEncoder) × (put v e ≡ ok (true, e')) × Encoding head n total (vs ++ v ∷ []) e'
  new-Long h test =
      let sizes : length vs ≡ length (runs_values runs) + e.repeat_count = omega (
        arith,
        ap length h.all,
        length-append (runs_values runs) (replicate e.repeat_count e.current_value),
        length-replicate e.repeat_count e.current_value,
      ) in
      let r =
        flush_rle_run-Repeat head n total runs e c are_runs do_fit h.between (omega (arith, h.many))
          (omega (arith, sizes, within)) limit in
      let e0 : RleEncoder = record e {
        bit_writer = r.writer;
        num_buffered_values = 0;
        repeat_count = 0;
      } in
      let e1 : RleEncoder = record e0 { repeat_count = 1; current_value = v } in
      let runs1 = runs ++ repeated e.repeat_count e.current_value ∷ [] in
      let (e', done, h') =
        buffer_value_lem head n total vs v e1
          (Common-buffered head n total e0 e.buffered_values 0 1 v
            (Common-record head n total e r.writer 0 0 e.bit_packed_count e.indicator_byte_pos c
              r.same_room)
            c.slots c.small small)
          runs1 [] 0 r.are_runs
          (DoFit-repeated e.bit_width e.repeat_count e.current_value runs h.many do_fit)
          (record {
            count = h.count;
            size = refl;
            few = omega arith;
            all_small = tt;
            kind = inl (refl, refl, record { nowhere = h.between.nowhere; holds = r.holds });
          })
          (omega arith) small [] refl
          (h.all
            ∙ sym (runs_values-snoc runs (repeated e.repeat_count e.current_value))
            ∙ sym (append_nil (runs_values runs1)))
          within in
      (
        e',
        put_other v e c.not_full test
            ∙ bind_to (start_value v e) e1 _ (restarted r h.many h.count)
                (bind_to (buffer_value v e1) e' _ done refl),
        h',
      )

  pub put_step :
      ((written : List ℕ) × (groups : ℕ) × Short head runs written groups vs e)
        ⊎ Long head runs vs e
      → (e' : RleEncoder) × (put v e ≡ ok (true, e')) × Encoding head n total (vs ++ v ∷ []) e'
  put_step state = elim (Bool-cases (e.current_value == v)) [
    | inl same ↦ elim state [
      | inl (written, groups, h) ↦ same-Short written groups h ((==_iff _ _).0 same)
      | inr h ↦ same-Long h ((==_iff _ _).0 same)
    ]
    | inr other ↦ elim state [
      | inl (written, groups, h) ↦ new-Short written groups h other
      | inr h ↦ new-Long h other
    ]
  ]
