-- ===== src/Schema/Builder/Valid.antt =====
-- src/schema/types.rs: which primitive types `build` makes, and the order of their statistics.
use parquet_rs.Prelude.{
  ◌≡◌, refl, ap, sym, ◌↔◌, Bool, true, false, ◌&&◌, ok, reject, ℤ, pos, lt_int, le_int,
}
use parquet_rs.Basic.{
  PhysicalType, fixed_len_byte_array, type_eq, LogicalType, undefined, int96, get_sort_order,
  get_default_sort_order,
}
use parquet_rs.Basic.Equality.{type_eq_iff}
use parquet_rs.Schema.Types.{SchemaType}
use parquet_rs.Schema.Builder.{PrimitiveTypeBuilder, check_logical_type, build}
use parquet_rs.Schema.Builder.Annotated.{
  IsAnnotated, UpTo, type_of, then_iff, reject_iff, lt_int_iff, check_logical_type_iff,
}

and_false : (a b : Bool) → ((a && b) ≡ false) ↔ ((a ≡ true) → b ≡ false)
and_false true b = (λ h e. h, λ h. h refl)
and_false false b = (λ h e. cc e, λ h. refl)

length_iff :
    (p : PhysicalType) (length : ℤ)
    → (reject (type_eq p fixed_len_byte_array && lt_int length (pos 0)) ≡ ok tt)
      ↔ ((p ≡ fixed_len_byte_array) → le_int (pos 0) length ≡ true)
length_iff p length =
    let t = type_eq_iff p fixed_len_byte_array in
    let n = lt_int_iff length (pos 0) in
    let c = type_eq p fixed_len_byte_array in
    let d = lt_int length (pos 0) in
    (
      λ h e. n.0 ((and_false c d).0 ((reject_iff (c && d)).0 h) (t.1 e)),
      λ h. (reject_iff (c && d)).1 ((and_false c d).1 (λ e. n.1 (h (t.0 e)))),
    )

-- `build`, with any limit on the precision of a decimal in a FIXED_LEN_BYTE_ARRAY.
pub build_iff :
    (max_precision : ℤ → ℤ) (b : PrimitiveTypeBuilder) (t : SchemaType)
    → (build max_precision b ≡ ok t) ↔ (
        ((b.physical_type ≡ fixed_len_byte_array) → le_int (pos 0) b.length ≡ true)
        × IsAnnotated (UpTo max_precision) b.logical_type b
        × (t ≡ type_of b))
unfolding build
build_iff max_precision b t =
    let fixed = type_eq b.physical_type fixed_len_byte_array in
    let c0 = then_iff (reject (fixed && lt_int b.length (pos 0))) _ t in
    let c1 = then_iff (check_logical_type max_precision b.logical_type b) (ok (type_of b)) t in
    let a = check_logical_type_iff max_precision b.logical_type b in
    let l = length_iff b.physical_type b.length in
    (
      λ h.
          let (h0, r0) = c0.0 h in
          let (h1, made) = c1.0 r0 in let same : t ≡ type_of b = cc made in (l.0 h0, a.0 h1, same),
      λ (h0, h1, same). c0.1 (l.1 h0, c1.1 (a.1 h1, ap ok (sym same))),
    )

undefined_default : (p : PhysicalType) → get_default_sort_order p ≡ undefined → p ≡ int96
unfolding get_default_sort_order
undefined_default PhysicalType.boolean order = cc order
undefined_default PhysicalType.int32 order = cc order
undefined_default PhysicalType.int64 order = cc order
undefined_default PhysicalType.int96 order = refl
undefined_default PhysicalType.float order = cc order
undefined_default PhysicalType.double order = cc order
undefined_default PhysicalType.byte_array order = cc order
undefined_default PhysicalType.fixed_len_byte_array order = cc order

undefined_order :
    (max_precision : ℤ → ℤ) (l : LogicalType) (b : PrimitiveTypeBuilder)
    → IsAnnotated (UpTo max_precision) l b
    → get_sort_order l b.physical_type ≡ undefined
    → (l ≡ LogicalType.none_type) × (b.physical_type ≡ int96)
unfolding get_sort_order
undefined_order max_precision LogicalType.utf8 b annotated order = cc order
undefined_order max_precision LogicalType.enum b annotated order = cc order
undefined_order max_precision LogicalType.decimal b annotated order = cc order
undefined_order max_precision LogicalType.date b annotated order = cc order
undefined_order max_precision LogicalType.time_millis b annotated order = cc order
undefined_order max_precision LogicalType.time_micros b annotated order = cc order
undefined_order max_precision LogicalType.timestamp_millis b annotated order = cc order
undefined_order max_precision LogicalType.timestamp_micros b annotated order = cc order
undefined_order max_precision LogicalType.uint_8 b annotated order = cc order
undefined_order max_precision LogicalType.uint_16 b annotated order = cc order
undefined_order max_precision LogicalType.uint_32 b annotated order = cc order
undefined_order max_precision LogicalType.uint_64 b annotated order = cc order
undefined_order max_precision LogicalType.int_8 b annotated order = cc order
undefined_order max_precision LogicalType.int_16 b annotated order = cc order
undefined_order max_precision LogicalType.int_32 b annotated order = cc order
undefined_order max_precision LogicalType.int_64 b annotated order = cc order
undefined_order max_precision LogicalType.json b annotated order = cc order
undefined_order max_precision LogicalType.bson b annotated order = cc order
undefined_order max_precision LogicalType.interval b annotated order = cc order
undefined_order max_precision LogicalType.map b annotated order = absurd annotated
undefined_order max_precision LogicalType.map_key_value b annotated order = absurd annotated
undefined_order max_precision LogicalType.list b annotated order = absurd annotated
undefined_order max_precision LogicalType.none_type b annotated order =
    (refl, undefined_default b.physical_type order)

-- The statistics of a column whose type `build` makes have an undefined order only if the type is an
-- INT96 without a logical type.
pub build-get_sort_order :
    (max_precision : ℤ → ℤ) (b : PrimitiveTypeBuilder) (t : SchemaType)
    → build max_precision b ≡ ok t
    → get_sort_order b.logical_type b.physical_type ≡ undefined
    → (b.logical_type ≡ LogicalType.none_type) × (b.physical_type ≡ int96)
build-get_sort_order max_precision b t h order =
    let (fixed, annotated, made) = (build_iff max_precision b t).0 h in
    undefined_order max_precision b.logical_type b annotated order
