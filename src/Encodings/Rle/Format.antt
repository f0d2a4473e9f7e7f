-- ===== src/Encodings/Rle/Format.antt =====
-- The format that src/encodings/rle.rs reads: a sequence of runs, each behind an indicator that says
-- of which kind it is and how long.
use parquet_rs.Prelude.{
  ℕ, ◌+◌, ◌*◌, ◌/◌, ◌^◌, ◌<◌, List, [], ◌∷◌, ◌++◌, length, replicate, All, ◌≡◌,
}
use parquet_rs.Prelude.Bytes.{to_le}
use parquet_rs.BitUtil.Vlq.Format.{vlq}

pub data Run : Type 0 where
  repeated : (count value : ℕ) → Run
  packed : (groups : ℕ) (values : List ℕ) → Run

-- Values of `w` bits as one number, the first one lowest.
abbrev pub spell : ℕ → List ℕ → ℕ
spell w [] = 0
spell w (v ∷ vs) = v + 2 ^ w * spell w vs

abbrev pub run_values : Run → List ℕ
run_values (repeated count value) = replicate count value
run_values (packed groups values) = values

-- A group is eight values, and takes as many bytes as a value has bits.
abbrev pub run_bytes : ℕ → Run → List ℕ
run_bytes w (repeated count value) = vlq (2 * count) ++ to_le ((w + 7) / 8) value
run_bytes w (packed groups values) = vlq (2 * groups + 1) ++ to_le (w * groups) (spell w values)

abbrev pub IsRun : ℕ → Run → Type 0
IsRun w (repeated count value) = (count < 2 ^ 32) × (value < 2 ^ w)
IsRun w (packed groups values) =
    (8 * groups < 2 ^ 32) × (length values ≡ 8 * groups) × All (λ v. v < 2 ^ w) values

abbrev pub runs_values : List Run → List ℕ
runs_values [] = []
runs_values (run ∷ runs) = run_values run ++ runs_values runs

abbrev pub runs_bytes : ℕ → List Run → List ℕ
runs_bytes w [] = []
runs_bytes w (run ∷ runs) = run_bytes w run ++ runs_bytes w runs
