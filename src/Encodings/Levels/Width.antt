-- ===== src/Encodings/Levels/Width.antt =====
-- src/encodings/levels.rs: the width that the levels up to `max_level` take.
use parquet_rs.Encodings.Levels.{as_u64, level_width}
use parquet_rs.BitUtil.Scalar.{log2}
use parquet_rs.BitUtil.Scalar.Laws.{log2_bounds}
use native.Mathlib.Nat.{mod-eq_of_lt}
use native.Mathlib.Decide.{dec_le}
use parquet_rs.Prelude.{
  ℕ, ◌+◌, ◌-◌, ◌%◌, ◌^◌, ◌≤◌, ◌<◌, ◌≡◌, ap, ◌∙◌, arith, two_pow_mono, lt→ltb, if◌then◌else◌,
}

pub as_u64_lem : (v : ℕ) → v < 2 ^ 15 → as_u64 v ≡ v
as_u64_lem v h = ap (λ b. if b then v else v + (2 ^ 64 - 2 ^ 16)) (lt→ltb v (2 ^ 15) h)

module _ (max_level : ℕ) (h : max_level < 2 ^ 15) where
  log2_narrow : log2 (max_level + 1) < 16
  log2_narrow = elim (dec_le 16 (log2 (max_level + 1))) [
    | no less ↦ omega (arith, less)
    | yes more ↦ absurd (
        omega (
          arith,
          two_pow_mono 16 (log2 (max_level + 1)) more,
          (log2_bounds (max_level + 1) (omega arith) (omega (arith, h))).1,
          h,
        ))
  ]

  level_width-log2 : level_width max_level ≡ log2 (max_level + 1)
  unfolding level_width
  level_width-log2 =
      ap (λ (k : ℕ). log2 ((k + 1) % 2 ^ 64) % 2 ^ 8) (as_u64_lem max_level h)
      ∙ ap (λ (k : ℕ). log2 k % 2 ^ 8) (mod-eq_of_lt (omega (arith, h)))
      ∙ mod-eq_of_lt (omega (arith, log2_narrow))

  pub level_width-le : level_width max_level ≤ 15
  level_width-le = omega (arith, level_width-log2, log2_narrow)

  -- Every level has the width.
  pub level_width_lem : (v : ℕ) → v ≤ max_level → v < 2 ^ level_width max_level
  level_width_lem v le = omega (
    arith,
    ap (λ (k : ℕ). 2 ^ k) level_width-log2,
    (log2_bounds (max_level + 1) (omega arith) (omega (arith, h))).0,
    le,
  )
