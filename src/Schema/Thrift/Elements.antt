-- ===== src/Schema/Thrift/Elements.antt =====
-- src/schema/types.rs: the elements that `to_thrift_helper` makes of one type, and what
-- `from_thrift_helper` makes of each.
use Prim.Native.String.{String}
use parquet_rs.Prelude.{
  ℕ, zero, suc, ◌+◌, ◌<◌, ◌^◌, ◌≡◌, refl, ap, Bool, true, false, Option, none, some, Option-cases,
  inl, inr, Outcome, ok, ◌>>=◌, ℤ, pos, negsuc, le_int, ◌==◌, to_i32, arith, ◌&&◌, lt→ltb, ◌%◌,
}
use parquet_rs.Basic.{PhysicalType, LogicalType, Repetition}
use parquet_rs.Basic.Thrift.{
  type_to_thrift, FieldRepetitionType, logical_type_to_thrift, repetition_to_thrift,
}
use parquet_rs.Basic.Thrift.Inverse.{
  type_from-type_to, logical_type_from-logical_type_to, repetition_from-repetition_to,
}
use parquet_rs.Schema.Types.{BasicTypeInfo, SchemaType, group_type, Fields, is_some}
use parquet_rs.Schema.Builder.{PrimitiveTypeBuilder, build}
use parquet_rs.Schema.Thrift.{
  SchemaElement, non_negative, unwrap_or, field_id_of, primitive_to_element, group_to_element,
  element_to_primitive, element_to_group, read_children, read_element,
}

field_id_of_lem : (info : BasicTypeInfo) → field_id_of info ≡ ok info.id
unfolding field_id_of
field_id_of_lem info = elim (Option-cases info.id) [
  | inl e ↦ rw (e) refl
  | inr (id, e) ↦ rw (e) refl
]

abbrev pub primitive_of : BasicTypeInfo → Repetition → PhysicalType → ℤ → ℤ → ℤ → SchemaElement
primitive_of info r physical_type type_length scale precision = record {
  type_ = some (type_to_thrift physical_type);
  type_length = non_negative type_length;
  repetition_type = some (repetition_to_thrift r);
  name = info.name;
  num_children = none;
  converted_type = logical_type_to_thrift info.logical_type;
  scale = non_negative scale;
  precision = non_negative precision;
  field_id = info.id;
}

-- A repetition that may be missing.
abbrev pub to_field_repetition : Option Repetition → Option FieldRepetitionType
to_field_repetition none = none
to_field_repetition (some r) = some (repetition_to_thrift r)

abbrev pub group_of : BasicTypeInfo → ℤ → SchemaElement
group_of info n = record {
  type_ = none;
  type_length = none;
  repetition_type = to_field_repetition info.repetition;
  name = info.name;
  num_children = some n;
  converted_type = logical_type_to_thrift info.logical_type;
  scale = none;
  precision = none;
  field_id = info.id;
}

pub primitive_to_element_lem :
    (info : BasicTypeInfo) (r : Repetition) (p : PhysicalType) (l s d : ℤ)
    → info.repetition ≡ some r
    → primitive_to_element info (type_to_thrift p) l s d ≡ ok (primitive_of info r p l s d)
unfolding primitive_to_element
primitive_to_element_lem info r p l s d e = rw (e, field_id_of_lem info) refl

pub group_to_element_lem :
    (info : BasicTypeInfo) (n : ℕ) → group_to_element info n ≡ ok (group_of info (to_i32 n))
unfolding group_to_element
group_to_element_lem info n = elim (Option-cases info.repetition) [
  | inl e ↦ rw (e, field_id_of_lem info) refl
  | inr (r, e) ↦ rw (e, field_id_of_lem info) refl
]

-- The builder with the attributes of a primitive type.
abbrev pub builder_of : BasicTypeInfo → Repetition → PhysicalType → ℤ → ℤ → ℤ → PrimitiveTypeBuilder
builder_of info r physical_type type_length scale precision = record {
  name = info.name;
  repetition = r;
  physical_type = physical_type;
  logical_type = info.logical_type;
  length = type_length;
  precision = precision;
  scale = scale;
  id = info.id;
}

-- A number that is missing is written and read as -1.
pub unwrap_or-non_negative :
    (z : ℤ) → le_int (negsuc 0) z ≡ true → unwrap_or (negsuc 0) (non_negative z) ≡ z
unwrap_or-non_negative (pos n) h = ground arith
unwrap_or-non_negative (negsuc n) h = let e : 0 ≡ n = ground arith in ap negsuc e

module _ (max_precision : ℤ → ℤ) where
  pub element_to_primitive_lem :
      (info : BasicTypeInfo) (r : Repetition) (p : PhysicalType) (l s d : ℤ)
      → le_int (negsuc 0) l ≡ true
      → le_int (negsuc 0) s ≡ true
      → le_int (negsuc 0) d ≡ true
      → element_to_primitive max_precision (primitive_of info r p l s d)
        ≡ build max_precision (builder_of info r p l s d)
  unfolding element_to_primitive
  element_to_primitive_lem info r p l s d hl hs hd = elim (Option-cases info.id) [
    | inl e ↦
        rw
          (
            e,
            unwrap_or-non_negative l hl,
            unwrap_or-non_negative s hs,
            unwrap_or-non_negative d hd,
            type_from-type_to p,
            repetition_from-repetition_to r,
            logical_type_from-logical_type_to info.logical_type,
          )
          refl
    | inr (id, e) ↦
        rw
          (
            e,
            unwrap_or-non_negative l hl,
            unwrap_or-non_negative s hs,
            unwrap_or-non_negative d hd,
            type_from-type_to p,
            repetition_from-repetition_to r,
            logical_type_from-logical_type_to info.logical_type,
          )
          refl
  ]

abbrev info_of : String → Option Repetition → LogicalType → Option ℤ → BasicTypeInfo
info_of name repetition logical_type id = record {
  name = name;
  repetition = repetition;
  logical_type = logical_type;
  id = id;
}

-- What a group with these attributes is read as, by the place of its element.
read_group :
    (root : Bool) (m : String) (r : Option Repetition) (l : LogicalType) (d : Option ℤ) (n : ℤ)
    (fields : Fields)
    → (root && is_some r) ≡ false
    → element_to_group root (group_of (info_of m r l d) n) fields
      ≡ ok (group_type (info_of m r l d) fields)
unfolding element_to_group
read_group root m none l none n fields h = rw (logical_type_from-logical_type_to l) refl
read_group root m none l (some d) n fields h = rw (logical_type_from-logical_type_to l) refl
read_group false m (some r) l none n fields h =
    rw (logical_type_from-logical_type_to l, repetition_from-repetition_to r) refl
read_group false m (some r) l (some d) n fields h =
    rw (logical_type_from-logical_type_to l, repetition_from-repetition_to r) refl
read_group true m (some r) l d n fields h = cc h

pub element_to_group_lem :
    (info : BasicTypeInfo) (n : ℤ) (fields : Fields)
    → element_to_group false (group_of info n) fields ≡ ok (group_type info fields)
element_to_group_lem info n fields =
    read_group false info.name info.repetition info.logical_type info.id n fields refl

pub element_to_group-root :
    (info : BasicTypeInfo) (n : ℤ) (fields : Fields)
    → info.repetition ≡ none
    → element_to_group true (group_of info n) fields ≡ ok (group_type info fields)
element_to_group-root info n fields e =
    read_group true info.name info.repetition info.logical_type info.id n fields (ap is_some e)

-- An element that counts some children is read as a group of those that are read.
pub read_element-group :
    (max_precision : ℤ → ℤ) (read_child : ℕ → Outcome (ℕ × SchemaType)) (index : ℕ)
    (e : SchemaElement)
    → (n end : ℕ) (fields : Fields) (t : SchemaType) → 0 < n
    → read_children read_child n (index + 1) ≡ ok (end, fields)
    → element_to_group (index == 0) e fields ≡ ok t
    → read_element max_precision read_child index e (some (pos n)) ≡ ok (end, t)
unfolding read_element
read_element-group max_precision read_child index e zero end fields t h children made =
    absurd (omega arith)
read_element-group max_precision read_child index e (suc n) end fields t h children made =
    rw (children) (ap (λ o. o >>= λ t'. ok (end, t')) made)

pub to_i32_small : (n : ℕ) → n < 2 ^ 31 → to_i32 n ≡ pos n
to_i32_small n h = let e : n % 2 ^ 32 ≡ n = omega arith in rw (e, lt→ltb n (2 ^ 31) h) refl
