-- ===== src/Schema/Contains.antt =====
-- src/schema/types.rs: `Type::check_contains`.
pub mod Outline
pub mod Sound
use Prim.Native.String.{String}
use text.Mathlib.Text.{◌==◌}
use parquet_rs.Prelude.{
  List, [], ◌∷◌, Bool, true, false, not, ◌&&◌, Option, none, some, Outcome, ok, ◌>>=◌,
  if◌then◌else◌,
}
use parquet_rs.Basic.{type_eq, repetition_eq}
use parquet_rs.Schema.Types.{
  BasicTypeInfo, SchemaType, primitive_type, group_type, Fields, nil, cons, get_basic_info, name_of,
  is_schema, repetition_of,
}

-- `basic_match`: the repetitions are asked for only if neither type is a message type.
unfoldable pub basic_match : SchemaType → SchemaType → Outcome Bool
unfolding get_basic_info name_of is_schema repetition_of
basic_match self sub_type =
    if name_of self == name_of sub_type
    then if is_schema self && is_schema sub_type
      then ok true
      else if not (is_schema self) && not (is_schema sub_type)
      then (do
        r ← repetition_of (get_basic_info self)
        s ← repetition_of (get_basic_info sub_type)
        ok (repetition_eq r s))
      else ok false
    else ok false

-- `field_map`, in which a later field of the same name takes the place of an earlier one.
unfoldable pub field_map : Fields → List (String × SchemaType) → List (String × SchemaType)
unfolding name_of
field_map nil m = m
field_map (cons f fs) m = field_map fs ((name_of f, f) ∷ m)

unfoldable pub find_field : String → List (String × SchemaType) → Option SchemaType
find_field name [] = none
find_field name ((key, f) ∷ m) = if key == name then some f else find_field name m

unfoldable mutual
  unfolding basic_match field_map find_field

  pub check_contains : SchemaType → SchemaType → Outcome Bool
  check_contains (primitive_type info p l s d) (primitive_type info' p' l' s' d') = do
    basic ← basic_match (primitive_type info p l s d) (primitive_type info' p' l' s' d')
    ok (basic && type_eq p p')
  check_contains (primitive_type info p l s d) (group_type info' fields') = do
    basic ← basic_match (primitive_type info p l s d) (group_type info' fields')
    ok false
  check_contains (group_type info fields) (primitive_type info' p' l' s' d') = do
    basic ← basic_match (group_type info fields) (primitive_type info' p' l' s' d')
    ok false
  check_contains (group_type info fields) (group_type info' fields') = do
    basic ← basic_match (group_type info fields) (group_type info' fields')
    if basic then check_fields (field_map fields []) fields' else ok false

  -- The loop over the fields of `sub_type`.
  pub check_fields : List (String × SchemaType) → Fields → Outcome Bool
  check_fields m nil = ok true
  check_fields m (cons f fs) = do
    found ← elim (find_field (name_of f) m) [ none ↦ ok false | some t ↦ check_contains t f ]
    if found then check_fields m fs else ok false
