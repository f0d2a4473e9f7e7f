-- ===== src/Basic/Equality.antt =====
-- src/basic.rs: the derived `PartialEq` of enumerations tells equal values apart from others.
use parquet_rs.Prelude.{◌≡◌, ap, ◌↔◌, true, arith, ==_iff}
use parquet_rs.Basic.{
  PhysicalType, Repetition, type_discriminant, type_eq, repetition_discriminant, repetition_eq,
}

pub type_eq_iff : (p q : PhysicalType) → (type_eq p q ≡ true) ↔ (p ≡ q)
unfolding type_eq
type_eq_iff p q = (
  λ h. grind (arith, h),
  λ e. (==_iff (type_discriminant p) (type_discriminant q)).1 (ap type_discriminant e),
)

pub repetition_eq_iff : (r s : Repetition) → (repetition_eq r s ≡ true) ↔ (r ≡ s)
unfolding repetition_eq
repetition_eq_iff r s = (
  λ h. grind (arith, h),
  λ e.
      (==_iff (repetition_discriminant r) (repetition_discriminant s)).1
        (ap repetition_discriminant e),
)
