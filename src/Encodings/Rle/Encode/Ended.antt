-- ===== src/Encodings/Rle/Encode/Ended.antt =====
-- src/encodings/rle.rs: a bit-packed run that has ended is one of the runs.
use parquet_rs.Encodings.Rle.Encoder.{RleEncoder}
use parquet_rs.Encodings.Rle.Encode.Space.{stream, stream-snoc}
use parquet_rs.Encodings.Rle.Format.{Run, packed, IsRun, run_bytes, runs_values}
use parquet_rs.Encodings.Rle.Encode.Holds.{Holds}
use parquet_rs.Encodings.Rle.Encode.Space.{DoFit, DoFit-packed, runs_values-snoc}
use parquet_rs.Encodings.Rle.Encode.State.{Common}
use parquet_rs.BitUtil.Writer.{BitWriter}
use parquet_rs.Prelude.{
  ℕ, ◌*◌, ◌^◌, ◌<◌, List, [], ◌∷◌, ◌++◌, length, append_assoc, All, All-append, Option, ◌≡◌, refl,
  sym, ap, ◌∙◌, subst, arith,
}

pub front_empty : (l : List ℕ) → length l ≡ 0 → l ≡ []
front_empty [] h = refl
front_empty (x ∷ l) h = absurd (omega (arith, h))

-- The run that has been written so far ends, and becomes one of the runs.
abbrev pub ended : List Run → List ℕ → ℕ → List Run
ended runs written groups = runs ++ packed groups written ∷ []

pub record Ends (n : ℕ) (runs : List Run) (written : List ℕ) (groups : ℕ) : Type 0 where
  pub are_runs : All (IsRun n) runs
  pub do_fit : DoFit n runs
  pub some_groups : 0 < groups
  pub few : groups < 64
  pub size : length written ≡ 8 * groups
  pub small : All (λ v. v < 2 ^ n) written

module _ (n : ℕ) (runs : List Run) (written : List ℕ) (groups : ℕ)
    (h : Ends n runs written groups) where
  pub ended-IsRun : All (IsRun n) (ended runs written groups)
  ended-IsRun =
      All-append (IsRun n) runs (packed groups written ∷ []) h.are_runs
        ((omega (arith, h.few), h.size, h.small), tt)

  pub ended-DoFit : DoFit n (ended runs written groups)
  ended-DoFit = DoFit-packed n groups written runs h.some_groups h.few h.size h.do_fit

pub ended-Holds :
    (head : List ℕ) (n : ℕ) (runs : List Run) (written : List ℕ) (groups : ℕ) (w : BitWriter)
    → Holds (stream head n runs ++ run_bytes n (packed groups written)) w
    → Holds (stream head n (ended runs written groups)) w
ended-Holds head n runs written groups w h =
    subst (λ l. Holds l w) (sym (stream-snoc head n runs (packed groups written))) h

pub ended_values :
    (runs : List Run) (written : List ℕ) (groups : ℕ) (rest : List ℕ)
    → runs_values (ended runs written groups) ++ rest ≡ runs_values runs ++ (written ++ rest)
ended_values runs written groups rest =
    ap (λ l. l ++ rest) (runs_values-snoc runs (packed groups written))
    ∙ append_assoc (runs_values runs) written rest

-- The common part of an encoder whose writer and counters have changed.
pub Common-record :
    (head : List ℕ) (n total : ℕ) (e : RleEncoder) (w : BitWriter) (k r c : ℕ) (at : Option ℕ)
    → Common head n total e
    → w.max_bytes ≡ e.bit_writer.max_bytes
    → Common head n total (record e {
      bit_writer = w;
      num_buffered_values = k;
      repeat_count = r;
      bit_packed_count = c;
      indicator_byte_pos = at;
    })
Common-record head n total e w k r c at h same = record {
  head_bytes = h.head_bytes;
  width = h.width;
  narrow = h.narrow;
  not_full = h.not_full;
  slots = h.slots;
  small = h.small;
  current = h.current;
  room = omega (arith, h.room, same);
}
