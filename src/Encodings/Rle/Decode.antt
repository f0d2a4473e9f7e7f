-- ===== src/Encodings/Rle/Decode.antt =====
-- src/encodings/rle.rs: `RleDecoder` returns the values of any sequence of runs in the format.
use parquet_rs.Encodings.Rle.Decoder.{
  RleDecoder, new, set_data, refill, refill_fuel, next_value, get,
}
use parquet_rs.Encodings.Rle.Format.{Run, runs_values, runs_bytes, IsRun}
use parquet_rs.Encodings.Rle.Reading.{Reading}
use parquet_rs.Encodings.Rle.Refill.{Refilled, refill_lem}
use parquet_rs.Encodings.Rle.Get.{next_value_lem}
use parquet_rs.Prelude.{
  ℕ, zero, suc, ◌*◌, ◌≤◌, ◌<◌, List, [], ◌∷◌, ◌++◌, length, length-append, drop, get_or, All, Bool,
  true, false, none, some, Outcome, ok, ◌>>=◌, le→leb, ◌≡◌, refl, subst, sym, ap, ◌∙◌, arith,
}
use parquet_rs.Encodings.Rle.SetData.{Returns, enough_fuel, set_data_lem}

-- One `get` after the other, `fuel` at most, until it returns `None`.
abbrev pub get_all : ℕ → ℕ → RleDecoder → Outcome (List ℕ × RleDecoder)
get_all zero size_of d = ok ([], d)
get_all (suc fuel) size_of d = do
  (next, d1) ← get size_of d
  elim next [
    | none ↦ ok ([], d1)
    | some v ↦ (do (vs, d2) ← get_all fuel size_of d1; ok (v ∷ vs, d2))
  ]

module _ (w size_of : ℕ) (narrow : w ≤ 64) (typed : w ≤ 8 * size_of) (eight : size_of ≤ 8) where
  -- `get` where `refill` found no value, and where it found one.
  get-refill_end :
      (d d1 : RleDecoder)
      → refill (refill_fuel d) d ≡ ok (false, d1)
      → get size_of d ≡ ok (none, d1)
  unfolding get
  get-refill_end d d1 e = rw (le→leb size_of 8 eight, e) refl

  get-refill_next :
      (d d1 d2 : RleDecoder) (v : ℕ)
      → refill (refill_fuel d) d ≡ ok (true, d1)
      → next_value size_of d1 ≡ ok (v, d2)
      → get size_of d ≡ ok (some v, d2)
  unfolding get
  get-refill_next d d1 d2 v e e2 = rw (le→leb size_of 8 eight, e, e2) refl

  refilled :
      (vs : List ℕ) (d : RleDecoder)
      → Returns w vs d
      → (more : Bool) × (d1 : RleDecoder) × (refill (refill_fuel d) d ≡ ok (more, d1))
        × Refilled w vs more d1
  refilled vs d state =
      subst
        (λ (all : List ℕ).
          (more : Bool) × (d1 : RleDecoder) × (refill (refill_fuel d) d ≡ ok (more, d1))
          × Refilled w all more d1)
        state.same
        (refill_lem w state.now state.runs (refill_fuel d) d narrow (enough_fuel d state.reading)
          state.are_runs state.reading)

  end_of :
      (d : RleDecoder) (more : Bool) (d1 : RleDecoder)
      → refill (refill_fuel d) d ≡ ok (more, d1)
      → Refilled w [] more d1
      → (d' : RleDecoder) × (get size_of d ≡ ok (none, d'))
  end_of d false d1 e done = (d1, get-refill_end d d1 e)
  end_of d true d1 e done = absurd (
      omega
        (arith, done.ready, ap length done.same, length-append done.now (runs_values done.runs)))

  -- Behind the last value `get` returns `None`.
  get_end : (d : RleDecoder) → Returns w [] d → (d' : RleDecoder) × (get size_of d ≡ ok (none, d'))
  get_end d state = let (more, d1, e, done) = refilled [] d state in end_of d more d1 e done

  value_of :
      (v : ℕ) (vs now : List ℕ) (runs : List Run) (d d1 : RleDecoder)
      → refill (refill_fuel d) d ≡ ok (true, d1)
      → Reading w now runs d1
      → All (IsRun w) runs
      → now ++ runs_values runs ≡ v ∷ vs
      → 0 < length now
      → (d' : RleDecoder) × (get size_of d ≡ ok (some v, d')) × Returns w vs d'
  value_of v vs [] runs d d1 e reading are_runs same ready = absurd (omega (arith, ready))
  value_of v vs (x ∷ now) runs d d1 e reading are_runs same ready =
      let (d2, e2, reading2) = next_value_lem size_of w x now runs d1 typed narrow reading in
      let first : x ≡ v = ap (λ (l : List ℕ). get_or l 0 0) same in
      (
        d2,
        get-refill_next d d1 d2 x e e2 ∙ ap (λ (y : ℕ). ok (some y, d2)) first,
        record {
          now = now;
          runs = runs;
          reading = reading2;
          are_runs = are_runs;
          same = ap (drop 1) same;
        },
      )

  next_of :
      (v : ℕ) (vs : List ℕ) (d : RleDecoder) (more : Bool) (d1 : RleDecoder)
      → refill (refill_fuel d) d ≡ ok (more, d1)
      → Refilled w (v ∷ vs) more d1
      → (d' : RleDecoder) × (get size_of d ≡ ok (some v, d')) × Returns w vs d'
  next_of v vs d false d1 e done = absurd (omega (arith, ap length (sym done.ready ∙ done.same)))
  next_of v vs d true d1 e done =
      value_of v vs done.now done.runs d d1 e done.reading done.are_runs done.same done.ready

  -- `get` returns the next value.
  get_next :
      (v : ℕ) (vs : List ℕ) (d : RleDecoder)
      → Returns w (v ∷ vs) d
      → (d' : RleDecoder) × (get size_of d ≡ ok (some v, d')) × Returns w vs d'
  get_next v vs d state =
      let (more, d1, e, done) = refilled (v ∷ vs) d state in next_of v vs d more d1 e done

  get_all_lem :
      (vs : List ℕ) (d : RleDecoder)
      → Returns w vs d
      → (d' : RleDecoder) × (get_all (suc (length vs)) size_of d ≡ ok (vs, d'))
  get_all_lem [] d state = let (d', e) = get_end d state in (d', rw e refl)
  get_all_lem (v ∷ vs) d state =
      let (d1, e, state1) = get_next v vs d state in
      let (d2, e2) = get_all_lem vs d1 state1 in (d2, rw (e, e2) refl)

-- A new decoder that is given the bytes of any sequence of runs, and asked by `get` for one value
-- after the other, returns exactly the values of the runs, in their order, and then `None`. This
-- holds for every width up to 64 and every type that is wide enough for it and no wider than eight
-- bytes; the runs are of fewer than 2 ^ 32 values, each of which has the
-- width, and nothing panics or fails.
pub decode_lem :
    (w size_of : ℕ) (runs : List Run)
    → w ≤ 64
    → w ≤ 8 * size_of
    → size_of ≤ 8
    → All (IsRun w) runs
    → (d : RleDecoder) × (d' : RleDecoder) × (set_data (runs_bytes w runs) (new w) ≡ ok d)
      × (get_all (suc (length (runs_values runs))) size_of d ≡ ok (runs_values runs, d'))
decode_lem w size_of runs narrow typed eight are_runs =
    let (d, e, state) = set_data_lem w runs narrow are_runs in
    let (d', all) = get_all_lem w size_of narrow typed eight (runs_values runs) d state in
    (d, d', e, all)
