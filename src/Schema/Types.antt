-- ===== src/Schema/Types.antt =====
-- src/schema/types.rs: `Type` (here `SchemaType`) and `BasicTypeInfo`. `Fields` is `Vec<TypePtr>`.
use Prim.Native.String.{String}
use parquet_rs.Prelude.{
  ℕ, suc, Bool, true, false, not, Option, none, some, Outcome, panic, ok, unwrap, ℤ,
}
use parquet_rs.Basic.{PhysicalType, LogicalType, Repetition}

pub record BasicTypeInfo : Type 0 where
  pub name : String
  pub repetition : Option Repetition
  pub logical_type : LogicalType
  pub id : Option ℤ

mutual
  pub data SchemaType : Type 0 where
    primitive_type :
        (basic_info : BasicTypeInfo)
        → (physical_type : PhysicalType) → (type_length scale precision : ℤ) → SchemaType
    group_type : (basic_info : BasicTypeInfo) → (fields : Fields) → SchemaType

  pub data Fields : Type 0 where
    nil : Fields
    cons : SchemaType → Fields → Fields

abbrev pub num_fields : Fields → ℕ
num_fields nil = 0
num_fields (cons f fs) = suc (num_fields fs)

-- `Vec::append`
abbrev pub append_fields : Fields → Fields → Fields
append_fields nil gs = gs
append_fields (cons f fs) gs = cons f (append_fields fs gs)

abbrev pub is_some {ℓ} : {A : Type ℓ} → Option A → Bool
is_some none = false
is_some (some a) = true

unfoldable pub has_repetition : BasicTypeInfo → Bool
has_repetition info = is_some info.repetition

unfoldable pub repetition_of : BasicTypeInfo → Outcome Repetition
repetition_of info = unwrap info.repetition

unfoldable pub has_id : BasicTypeInfo → Bool
has_id info = is_some info.id

unfoldable pub id_of : BasicTypeInfo → Outcome ℤ
id_of info = unwrap info.id

unfoldable pub get_basic_info : SchemaType → BasicTypeInfo
get_basic_info (primitive_type info _ _ _ _) = info
get_basic_info (group_type info _) = info

unfoldable pub name_of : SchemaType → String
unfolding get_basic_info
name_of t = (get_basic_info t).name

unfoldable pub get_fields : SchemaType → Outcome Fields
get_fields (primitive_type _ _ _ _ _) = panic
get_fields (group_type _ fields) = ok fields

unfoldable pub get_physical_type : SchemaType → Outcome PhysicalType
get_physical_type (primitive_type _ physical_type _ _ _) = ok physical_type
get_physical_type (group_type _ _) = panic

unfoldable pub is_primitive : SchemaType → Bool
is_primitive (primitive_type _ _ _ _ _) = true
is_primitive (group_type _ _) = false

unfoldable pub is_group : SchemaType → Bool
is_group (primitive_type _ _ _ _ _) = false
is_group (group_type _ _) = true

unfoldable pub is_schema : SchemaType → Bool
unfolding has_repetition
is_schema (primitive_type _ _ _ _ _) = false
is_schema (group_type info _) = not (has_repetition info)
