-- ===== src/Encodings/Rle/Encode/Space.antt =====
-- src/encodings/rle.rs: how many bytes runs take, against `RleEncoder::max_buffer_size`.
use parquet_rs.Encodings.Rle.RunBytes.{runs_bytes-IsByte}
use parquet_rs.Prelude.Bytes.{IsByte}
use parquet_rs.Prelude.{◌++◌, All, All-append}
use parquet_rs.Encodings.Rle.Format.{
  Run, repeated, packed, run_bytes, run_values, runs_bytes, runs_values,
}
use parquet_rs.Encodings.Rle.Encoder.{max_buffer_size}
use parquet_rs.Encodings.Rle.Encode.Packed.{packed_length}
use parquet_rs.BitUtil.Scalar.Laws.{ceil_eight}
use parquet_rs.BitUtil.Vlq.Format.{vlq, length-vlq_bytes, vlq_bytes, vlq_bytes_last, vlq_bytes_more}
use parquet_rs.Prelude.{
  ℕ, zero, suc, ◌+◌, ◌*◌, ◌/◌, ◌≤◌, ◌<◌, max, List, [], ◌∷◌, ◌++◌, length, length-append,
  length-replicate, append_assoc, append_nil, All, ◌≡◌, sym, ap, ap₂, ◌∙◌, arith,
}
use parquet_rs.Prelude.Bytes.{to_le, length-to_le}
use native.Mathlib.Decide.{dec_le}

-- The most bytes that eight values take.
abbrev pub group_size : ℕ → ℕ
group_size n = 1 + max n ((n + 7) / 8)

vlq_length : (k v : ℕ) → length (vlq_bytes k v) ≤ 1 + v / 128
vlq_length zero v = omega (arith, length-vlq_bytes 0 v)
vlq_length (suc k) v = elim (dec_le 128 v) [
  | yes more ↦ omega (arith, ap length (vlq_bytes_more k v more), vlq_length k (v / 128))
  | no few ↦ omega (arith, ap length (vlq_bytes_last (suc k) v (omega (arith, few))))
]

pub times_mono : (a b c : ℕ) → a ≤ b → a * c ≤ b * c
times_mono a b c h = grind arith

sum-le : (q u a b : ℕ) → 0 < q → a ≤ q → b + 1 ≤ u → a + b ≤ q * u
sum-le zero u a b h i j = absurd (omega (arith, h))
sum-le (suc q) zero a b h i j = absurd (omega (arith, j))
sum-le (suc q) (suc u) a b h i j = omega (arith, i, j)

group-le : (n g u : ℕ) → n + 1 ≤ u → 0 < g → 1 + n * g ≤ g * u
group-le n g u h some = omega (arith, times_mono (n + 1) u g h, some)

repeated_length :
    (n count value : ℕ)
    → length (run_bytes n (repeated count value)) ≤ 1 + 2 * count / 128 + (n + 7) / 8
repeated_length n count value = omega (
  arith,
  vlq_length 9 (2 * count),
  length-append (vlq (2 * count)) (to_le ((n + 7) / 8) value),
  length-to_le ((n + 7) / 8) value,
)

-- A run of at least eight equal values.
repeated_fits :
    (n count value : ℕ)
    → 8 ≤ count
    → length (run_bytes n (repeated count value)) ≤ count / 8 * group_size n
repeated_fits n count value h = omega (
  arith,
  repeated_length n count value,
  sum-le (count / 8) (group_size n) (1 + 2 * count / 128) ((n + 7) / 8) (omega (arith, h))
      (omega (arith, h)) (omega arith),
)

packed_fits :
    (n g : ℕ) (vs : List ℕ) → 0 < g → g < 64 → length (run_bytes n (packed g vs)) ≤ g * group_size n
packed_fits n g vs some few =
    omega (arith, packed_length n g vs few, group-le n g (group_size n) (omega arith) some)

-- The runs take no more bytes than their values make groups.
abbrev pub DoFit : ℕ → List Run → Type 0
DoFit n runs = length (runs_bytes n runs) ≤ length (runs_values runs) / 8 * group_size n

pub runs_bytes-snoc :
    (n : ℕ) (runs : List Run) (run : Run)
    → runs_bytes n (runs ++ run ∷ []) ≡ runs_bytes n runs ++ run_bytes n run
runs_bytes-snoc n [] run = append_nil (run_bytes n run)
runs_bytes-snoc n (r ∷ runs) run =
    ap (λ l. run_bytes n r ++ l) (runs_bytes-snoc n runs run)
    ∙ sym (append_assoc (run_bytes n r) (runs_bytes n runs) (run_bytes n run))

-- The bytes of the runs, behind the bytes that the buffer starts with.
abbrev pub stream : List ℕ → ℕ → List Run → List ℕ
stream head n runs = head ++ runs_bytes n runs

pub stream-snoc :
    (head : List ℕ) (n : ℕ) (runs : List Run) (run : Run)
    → stream head n (runs ++ run ∷ []) ≡ stream head n runs ++ run_bytes n run
stream-snoc head n runs run =
    ap (λ l. head ++ l) (runs_bytes-snoc n runs run)
    ∙ sym (append_assoc head (runs_bytes n runs) (run_bytes n run))

pub stream-IsByte :
    (head : List ℕ) (n : ℕ) (runs : List Run) → All IsByte head → All IsByte (stream head n runs)
stream-IsByte head n runs h =
    All-append IsByte head (runs_bytes n runs) h (runs_bytes-IsByte n runs)

pub runs_values-snoc :
    (runs : List Run) (run : Run)
    → runs_values (runs ++ run ∷ []) ≡ runs_values runs ++ run_values run
runs_values-snoc [] run = append_nil (run_values run)
runs_values-snoc (r ∷ runs) run =
    ap (λ l. run_values r ++ l) (runs_values-snoc runs run)
    ∙ sym (append_assoc (run_values r) (runs_values runs) (run_values run))

fit_more :
    (n k : ℕ) (runs : List Run) (run : Run)
    → DoFit n runs
    → length (run_bytes n run) ≤ k * group_size n
    → 8 * k ≤ length (run_values run)
    → DoFit n (runs ++ run ∷ [])
fit_more n k runs run fits one size =
    let v = length (runs_values runs) in
    let vs = length (runs_values (runs ++ run ∷ [])) in
    let values : vs ≡ v + length (run_values run) =
      ap length (runs_values-snoc runs run) ∙ length-append (runs_values runs) (run_values run) in
    omega (
      arith,
      fits,
      one,
      ap length (runs_bytes-snoc n runs run),
      length-append (runs_bytes n runs) (run_bytes n run),
      times_mono (v / 8 + k) (vs / 8) (group_size n) (omega (arith, values, size)),
    )

pub DoFit-repeated :
    (n count value : ℕ) (runs : List Run)
    → 8 ≤ count
    → DoFit n runs
    → DoFit n (runs ++ repeated count value ∷ [])
DoFit-repeated n count value runs h fits =
    fit_more n (count / 8) runs (repeated count value) fits (repeated_fits n count value h)
      (omega (arith, length-replicate count value))

pub DoFit-packed :
    (n g : ℕ) (vs : List ℕ) (runs : List Run)
    → 0 < g
    → g < 64
    → length vs ≡ 8 * g
    → DoFit n runs
    → DoFit n (runs ++ packed g vs ∷ [])
DoFit-packed n g vs runs some few size fits =
    fit_more n g runs (packed g vs) fits (packed_fits n g vs some few) (omega (arith, size))

-- Room for a bit-packed run that goes on for one more group.
pub room_for_group :
    (n g total room : ℕ) (runs : List Run)
    → DoFit n runs
    → (total + 7) / 8 * group_size n ≤ room
    → length (runs_values runs) + 8 * g < total
    → length (runs_bytes n runs) + 1 + n * (g + 1) ≤ room
room_for_group n g total room runs fits enough more =
    let v = length (runs_values runs) in
    omega (
      arith,
      fits,
      enough,
      group-le n (g + 1) (group_size n) (omega arith) (omega arith),
      times_mono (v / 8 + (g + 1)) ((total + 7) / 8) (group_size n) (omega (arith, more)),
    )

-- Room for a run of equal values, fewer than eight too.
pub room_for_repeated :
    (n count value total room : ℕ) (runs : List Run)
    → DoFit n runs
    → (total + 7) / 8 * group_size n ≤ room
    → 0 < count
    → length (runs_values runs) + count ≤ total
    → length (runs_bytes n runs) + length (run_bytes n (repeated count value)) ≤ room
room_for_repeated n count value total room runs fits enough some within =
    let v = length (runs_values runs) in
    elim (dec_le 8 count) [
      | yes many ↦ omega (
        arith,
        fits,
        enough,
        repeated_fits n count value many,
        times_mono (v / 8 + count / 8) ((total + 7) / 8) (group_size n) (omega (arith, within)),
      )
      | no less ↦ omega (
        arith,
        fits,
        enough,
        repeated_length n count value,
        times_mono (v / 8 + 1) ((total + 7) / 8) (group_size n) (omega (arith, within, some)),
      )
    ]

max_times : (a n c : ℕ) → max (a + a * n) (a * (1 + c)) ≡ a * (1 + max n c)
max_times a n c = elim (dec_le n c) [
  | yes le ↦
      let e : max n c ≡ c = omega (arith, le) in
      let t = times_mono n c a le in omega (arith, t, ap (λ (k : ℕ). a * (1 + k)) e)
  | no gt ↦
      let e : max n c ≡ n = omega (arith, gt) in
      let t = times_mono c n a (omega (arith, gt)) in
      omega (arith, t, ap (λ (k : ℕ). a * (1 + k)) e)
]

pub max_buffer_size_lem : (n total : ℕ) → max_buffer_size n total ≡ (total + 7) / 8 * group_size n
unfolding max_buffer_size
max_buffer_size_lem n total =
    ap₂ (λ (a c : ℕ). max (a + a * n) (a * (1 + c))) (ceil_eight total) (ceil_eight n)
    ∙ max_times ((total + 7) / 8) n ((n + 7) / 8)
