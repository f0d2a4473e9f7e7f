-- ===== src/Encodings/Rle/BatchLoop.antt =====
-- src/encodings/rle.rs: `RleDecoder::get_batch` fills the slice with the values of the runs.
use parquet_rs.Encodings.Rle.Decoder.{RleDecoder, reload}
use parquet_rs.Encodings.Rle.Batch.{
  Filled, fill_repeated, fill_packed, after_round, fill_round, fill_loop,
}
use parquet_rs.Encodings.Rle.BatchStep.{Round, fill_repeated_lem, fill_packed_lem}
use parquet_rs.Encodings.Rle.Format.{Run, run_values, runs_values, IsRun}
use parquet_rs.Encodings.Rle.Reading.{Reading, spent_lem}
use parquet_rs.Encodings.Rle.Reload.{reload_lem, reload_end}
use parquet_rs.Encodings.Rle.Refill.{with_reader}
use parquet_rs.Encodings.Rle.SetData.{Returns}
use parquet_rs.BitUtil.Batch.Fields.{fields, Ready}
use parquet_rs.BitUtil.Reader.Position.{position}
use native.Mathlib.Decide.{dec_lt}
use parquet_rs.Prelude.{
  ℕ, zero, suc, ◌+◌, ◌*◌, ◌≤◌, ◌<◌, min, List, [], ◌∷◌, ◌++◌, length, length-append, length-drop,
  drop, drop-drop, replicate, All, All-drop, Bool, true, false, some, Outcome, ok, ◌>>=◌, lt→ltb,
  le→ltb, if◌then◌else◌, ◌≡◌, refl, subst, sym, ap, ap₂, ◌∙◌, arith,
}
use mathlib.Core.List.{append_assoc}

-- What the loop ends in: the places it did not reach are as before, and either none are left or no
-- value is.
pub record Ended (w : ℕ) (all : List ℕ) (places : List ℕ) (result : Outcome Filled) : Type 0 where
  pub read : List ℕ
  pub later : List ℕ
  pub next : RleDecoder
  pub is : result ≡ ok (read, (drop (length read) places, next))
  pub state : Returns w later next
  pub split : read ++ later ≡ all
  pub counted : length read ≡ min (length places) (length all)

none_pending :
    {w : ℕ} {now : List ℕ} {runs : List Run} (d : RleDecoder)
    → Reading w now runs d
    → d.rle_left ≡ 0
    → d.bit_packed_left ≡ 0
    → now ≡ []
none_pending d reading h k =
    reading.values
    ∙ ap₂
        (λ (c n : ℕ).
          replicate c reading.value
          ++ fields reading.reader.buffer d.bit_width n (position reading.reader))
        h k

module _ (size_of w : ℕ) (narrow : w ≤ 32) (typed : w ≤ 8 * size_of) where
  -- A round, and the rounds that follow it.
  join_rounds :
      {now places : List ℕ} {runs : List Run} {first : Outcome Filled}
      (more : List ℕ → RleDecoder → Outcome Filled)
      → (round : Round w now runs places first)
      → Ended w
          (round.later ++ runs_values runs)
          (drop (length round.read) places)
          (more (drop (length round.read) places) round.next)
      → Ended w (now ++ runs_values runs) places (first >>= after_round more)
  unfolding after_round
  join_rounds {now} {places} {runs} {first} more round rest = record {
    read = round.read ++ rest.read;
    later = rest.later;
    next = rest.next;
    is =
        ap (λ (m : Outcome Filled). m >>= after_round more) round.is
        ∙ ap
            (λ (m : Outcome Filled).
              m >>= λ (others, (left, d')). ok (round.read ++ others, (left, d')))
            rest.is
        ∙ ap (λ (l : List ℕ). ok (round.read ++ rest.read, (l, rest.next))) dropped;
    state = rest.state;
    split =
        append_assoc round.read rest.read rest.later
        ∙ ap (λ (l : List ℕ). round.read ++ l) rest.split
        ∙ sym (append_assoc round.read round.later (runs_values runs))
        ∙ ap (λ (l : List ℕ). l ++ runs_values runs) round.split;
    counted = omega (
      arith,
      rest.counted,
      round.fits,
      length-append round.read rest.read,
      length-append round.later (runs_values runs),
      length-append now (runs_values runs),
      ap length round.split,
      length-append round.read round.later,
      length-drop (length round.read) places,
    );
  }
    where
      dropped :
          drop (length rest.read) (drop (length round.read) places)
          ≡ drop (length (round.read ++ rest.read)) places
      dropped =
          drop-drop (length rest.read) (length round.read) places
          ∙ ap (λ (k : ℕ). drop k places) (sym (length-append round.read rest.read))

  no_place :
      (now : List ℕ) (runs : List Run) (d : RleDecoder)
      → All (IsRun w) runs
      → Reading w now runs d
      → Ended w (now ++ runs_values runs) [] (ok ([], ([], d)))
  no_place now runs d are_runs reading = record {
    read = [];
    later = now ++ runs_values runs;
    next = d;
    is = refl;
    state = record { now = now; runs = runs; reading = reading; are_runs = are_runs; same = refl };
    split = refl;
    counted = omega arith;
  }

  -- The four ways of a round.
  round-repeated :
      (more : List ℕ → RleDecoder → Outcome Filled) (places : List ℕ) (d : RleDecoder)
      → 0 < d.rle_left
      → fill_round more size_of places d ≡ (fill_repeated size_of places d >>= after_round more)
  unfolding fill_round
  round-repeated more places d h = rw (lt→ltb 0 d.rle_left h) refl

  pub round-packed :
      (more : List ℕ → RleDecoder → Outcome Filled) (places : List ℕ) (d : RleDecoder)
      → d.rle_left ≡ 0
      → 0 < d.bit_packed_left
      → fill_round more size_of places d ≡ (fill_packed size_of places d >>= after_round more)
  unfolding fill_round
  round-packed more places d none_left h =
      rw (le→ltb 0 d.rle_left (omega (arith, none_left)), lt→ltb 0 d.bit_packed_left h) refl

  round-reload :
      (more : List ℕ → RleDecoder → Outcome Filled) (places : List ℕ) (d d' : RleDecoder)
      (loaded : Bool)
      → (d.rle_left ≡ 0) × (d.bit_packed_left ≡ 0)
      → reload d ≡ ok (loaded, d')
      → fill_round more size_of places d
        ≡ (if loaded then more places d' else ok ([], (places, d')))
  unfolding fill_round
  round-reload more places d d' loaded spent e =
      rw
        (
          le→ltb 0 d.rle_left (omega (arith, spent.0)),
          le→ltb 0 d.bit_packed_left (omega (arith, spent.1)),
          e,
        )
        refl

  by_outcome :
      {all places : List ℕ} {result result' : Outcome Filled}
      → result ≡ result'
      → Ended w all places result'
      → Ended w all places result
  by_outcome {all} {places} e ended = subst (Ended w all places) (sym e) ended

  -- The rounds that follow, as the induction has them.
  abbrev pub Later : ℕ → Type 0
  Later fuel =
      (places now : List ℕ) (runs : List Run) (d : RleDecoder)
      → length places + length runs < fuel
      → All (Ready size_of) places
      → All (IsRun w) runs
      → Reading w now runs d
      → Ended w (now ++ runs_values runs) places (fill_loop fuel size_of places d)

  module _ (fuel : ℕ) (later : Later fuel) (place : ℕ) (others : List ℕ)
      (ready : All (Ready size_of) (place ∷ others)) where
    abbrev places : List ℕ
    places = place ∷ others

    round_lem :
        {now : List ℕ} {runs : List Run} {first : Outcome Filled}
        → length places + length runs < suc fuel
        → All (IsRun w) runs
        → Round w now runs places first
        → Ended w (now ++ runs_values runs) places (first >>= after_round (fill_loop fuel size_of))
    round_lem {now} {runs} enough are_runs round = join_rounds (fill_loop fuel size_of) round (
        later (drop (length round.read) places) round.later runs round.next
          (omega (arith, enough, length-drop (length round.read) places, round.some_read))
          (All-drop (Ready size_of) (length round.read) places ready) are_runs round.reading)

    reload_round :
        (runs : List Run) (d : RleDecoder)
        → length places + length runs < suc fuel
        → All (IsRun w) runs
        → Reading w [] runs d
        → Ended w (runs_values runs) places (fill_round (fill_loop fuel size_of) size_of places d)
    reload_round [] d enough are_runs reading =
        by_outcome
          (round-reload (fill_loop fuel size_of) places d _ false (spent_lem d reading)
            (reload_end w d reading))
          (record {
            read = [];
            later = [];
            next = record d { bit_reader = some reading.reader };
            is = refl;
            state = record {
              now = [];
              runs = [];
              reading = with_reader d reading;
              are_runs = tt;
              same = refl;
            };
            split = refl;
            counted = omega arith;
          })
    reload_round (run ∷ runs) d enough are_runs reading =
        let (d', e, reading') = reload_lem w run runs d (omega arith) are_runs.0 reading in
        by_outcome (round-reload (fill_loop fuel size_of) places d d' true (spent_lem d reading) e)
          (later places (run_values run) runs d' (omega (arith, enough)) ready are_runs.1 reading')

    any_round :
        (now : List ℕ) (runs : List Run) (d : RleDecoder)
        → length places + length runs < suc fuel
        → All (IsRun w) runs
        → Reading w now runs d
        → Ended w
            (now ++ runs_values runs)
            places
            (fill_round (fill_loop fuel size_of) size_of places d)
    any_round now runs d enough are_runs reading = elim (dec_lt 0 d.rle_left) [
      | yes more ↦ by_outcome (round-repeated (fill_loop fuel size_of) places d more) (
          round_lem enough are_runs
            (fill_repeated_lem size_of w narrow typed now runs places d reading (omega arith) more))
      | no none_left ↦ elim (dec_lt 0 d.bit_packed_left) [
        | yes more ↦
            by_outcome (round-packed (fill_loop fuel size_of) places d (omega arith) more) (
              round_lem enough are_runs (
                fill_packed_lem size_of w narrow typed now runs places d reading (omega arith)
                  (omega arith) more ready))
        | no spent ↦
            let empty : now ≡ [] = none_pending d reading (omega arith) (omega arith) in
            subst
              (λ (l : List ℕ).
                Ended w (l ++ runs_values runs) places
                  (fill_round (fill_loop fuel size_of) size_of places d))
              (sym empty)
              (reload_round runs d enough are_runs
                (subst (λ (l : List ℕ). Reading w l runs d) empty reading))
      ]
    ]

  pub fill_loop_lem : (fuel : ℕ) → Later fuel
  unfolding fill_loop
  fill_loop_lem zero places now runs d enough ready are_runs reading =
      absurd (omega (arith, enough))
  fill_loop_lem (suc fuel) [] now runs d enough ready are_runs reading =
      no_place now runs d are_runs reading
  fill_loop_lem (suc fuel) (place ∷ places) now runs d enough ready are_runs reading =
      any_round fuel (fill_loop_lem fuel) place places ready now runs d enough are_runs reading
