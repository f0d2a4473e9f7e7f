-- ===== src/Schema/Thrift.antt =====
-- src/schema/types.rs: `to_thrift` and `from_thrift`. A `SchemaElement` is the crate
-- `parquet_format`'s, with the fields that the code writes and reads; `logical_type`, which is always
-- written as `None` and never read, is left out.
mod Elements
pub mod Messages
mod Reading
pub mod RoundTrip
pub mod Forward
pub mod Ending
pub mod Fuel
pub mod Truncated
use Prim.Native.String.{String}
use parquet_rs.Prelude.{
  ℕ, zero, suc, ◌+◌, List, [], ◌∷◌, ◌++◌, length, get_elem?, Bool, true, false, not, Option, none,
  some, Outcome, ok, err, panic, running, general, reject, unwrap, ◌>>=◌, ◌>>◌, ℤ, pos, negsuc,
  le_int, count, to_i32, ltb, ◌==◌, if◌then◌else◌,
}
use parquet_rs.Basic.{Repetition}
use parquet_rs.Basic.Thrift.{
  ThriftType, ConvertedType, FieldRepetitionType, type_from_thrift, type_to_thrift,
  logical_type_from_thrift, logical_type_to_thrift, repetition_from_thrift, repetition_to_thrift,
}
use parquet_rs.Schema.Types.{
  BasicTypeInfo, SchemaType, primitive_type, group_type, Fields, nil, cons, num_fields,
  has_repetition, repetition_of, has_id, id_of, is_group,
}
use parquet_rs.Schema.Builder.{
  PrimitiveTypeBuilder, primitive_type_builder, with_repetition, with_logical_type, with_length,
  with_precision, with_scale, with_id, build,
}
use parquet_rs.Schema.GroupBuilder
use parquet_rs.Schema.GroupBuilder.{GroupTypeBuilder, group_type_builder, with_fields, build_group}

pub record SchemaElement : Type 0 where
  pub type_ : Option ThriftType
  pub type_length : Option ℤ
  pub repetition_type : Option FieldRepetitionType
  pub name : String
  pub num_children : Option ℤ
  pub converted_type : Option ConvertedType
  pub scale : Option ℤ
  pub precision : Option ℤ
  pub field_id : Option ℤ

-- `if value >= 0 { Some(value) } else { None }`
abbrev pub non_negative : ℤ → Option ℤ
non_negative value = if le_int (pos 0) value then some value else none

-- `field_id` of an element: the id if there is one.
unfoldable pub field_id_of : BasicTypeInfo → Outcome (Option ℤ)
unfolding has_id id_of
field_id_of info = if has_id info then (do id ← id_of info; ok (some id)) else ok none

-- The element of a primitive type.
unfoldable pub primitive_to_element : BasicTypeInfo → ThriftType → ℤ → ℤ → ℤ → Outcome SchemaElement
unfolding repetition_of field_id_of
primitive_to_element info type type_length scale precision = do
  repetition ← repetition_of info
  field_id ← field_id_of info
  ok (record {
    type_ = some type;
    type_length = non_negative type_length;
    repetition_type = some (repetition_to_thrift repetition);
    name = info.name;
    num_children = none;
    converted_type = logical_type_to_thrift info.logical_type;
    scale = non_negative scale;
    precision = non_negative precision;
    field_id = field_id;
  })

-- The element of a group.
unfoldable pub group_to_element : BasicTypeInfo → ℕ → Outcome SchemaElement
unfolding has_repetition repetition_of field_id_of
group_to_element info num_fields = do
  repetition ←
      if has_repetition info
      then (do repetition ← repetition_of info; ok (some (repetition_to_thrift repetition)))
      else ok none
  field_id ← field_id_of info
  ok (record {
    type_ = none;
    type_length = none;
    repetition_type = repetition;
    name = info.name;
    num_children = some (to_i32 num_fields);
    converted_type = logical_type_to_thrift info.logical_type;
    scale = none;
    precision = none;
    field_id = field_id;
  })

unfoldable mutual
  unfolding primitive_to_element group_to_element

  pub to_thrift_helper : SchemaType → List SchemaElement → Outcome (List SchemaElement)
  to_thrift_helper (primitive_type info physical_type type_length scale precision) elements = do
    element ← primitive_to_element info (type_to_thrift physical_type) type_length scale precision
    ok (elements ++ element ∷ [])
  to_thrift_helper (group_type info fields) elements = do
    element ← group_to_element info (num_fields fields)
    to_thrift_fields fields (elements ++ element ∷ [])

  -- The loop over the fields of a group.
  pub to_thrift_fields : Fields → List SchemaElement → Outcome (List SchemaElement)
  to_thrift_fields nil elements = ok elements
  to_thrift_fields (cons f fs) elements = do
    elements' ← to_thrift_helper f elements
    to_thrift_fields fs elements'

unfoldable pub to_thrift : SchemaType → Outcome (List SchemaElement)
unfolding is_group to_thrift_helper
to_thrift schema = do reject (not (is_group schema)); to_thrift_helper schema []

abbrev pub unwrap_or {ℓ} : {A : Type ℓ} → A → Option A → A
unwrap_or a none = a
unwrap_or a (some b) = b

-- The arm of `from_thrift_helper` for an element without children.
unfoldable pub element_to_primitive : (ℤ → ℤ) → SchemaElement → Outcome SchemaType
unfolding primitive_type_builder with_repetition with_logical_type with_length with_precision
    with_scale with_id build
element_to_primitive max_precision e = do
  repetition_type ← elim e.repetition_type [ none ↦ err general | some r ↦ ok r ]
  let repetition = repetition_from_thrift repetition_type
  type ← unwrap e.type_
  let physical_type = type_from_thrift type
  let length = unwrap_or (negsuc 0) e.type_length
  let scale = unwrap_or (negsuc 0) e.scale
  let precision = unwrap_or (negsuc 0) e.precision
  let builder = with_scale scale (
      with_precision precision (
        with_length length (
          with_logical_type (logical_type_from_thrift e.converted_type)
            (with_repetition repetition (primitive_type_builder e.name physical_type)))))
  build max_precision (elim e.field_id [ none ↦ builder | some id ↦ with_id id builder ])

-- `if let Some(rep) = repetition` of a group: the root keeps none.
unfoldable pub set_repetition :
    Bool → Option FieldRepetitionType → GroupTypeBuilder → GroupTypeBuilder
unfolding GroupBuilder.with_repetition
set_repetition is_root_node none b = b
set_repetition is_root_node (some r) b =
    if not is_root_node then GroupBuilder.with_repetition (repetition_from_thrift r) b else b

-- The end of the arm of `from_thrift_helper` for an element with children.
unfoldable pub element_to_group : Bool → SchemaElement → Fields → Outcome SchemaType
unfolding group_type_builder with_fields build_group set_repetition GroupBuilder.with_logical_type
    GroupBuilder.with_id
element_to_group is_root_node e fields =
    let b = set_repetition is_root_node e.repetition_type (
      with_fields fields (
        GroupBuilder.with_logical_type (logical_type_from_thrift e.converted_type)
          (group_type_builder e.name))) in
    build_group (elim e.field_id [ none ↦ b | some id ↦ GroupBuilder.with_id id b ])

-- The loop over the children of an element, given what reads one child at an index.
unfoldable pub read_children : (ℕ → Outcome (ℕ × SchemaType)) → ℕ → ℕ → Outcome (ℕ × Fields)
read_children read_child zero next_index = ok (next_index, nil)
read_children read_child (suc n) next_index = do
  (after, child) ← read_child next_index
  (end, children) ← read_children read_child n after
  ok (end, cons child children)

-- The `match` on `num_children`.
unfoldable pub read_element :
    (ℤ → ℤ)
    → (ℕ → Outcome (ℕ × SchemaType))
    → ℕ
    → SchemaElement
    → Option ℤ
    → Outcome (ℕ × SchemaType)
unfolding element_to_primitive element_to_group read_children
read_element max_precision read_child index e none = do
  t ← element_to_primitive max_precision e
  ok (index + 1, t)
read_element max_precision read_child index e (some (pos zero)) = do
  t ← element_to_primitive max_precision e
  ok (index + 1, t)
read_element max_precision read_child index e (some n) = do
  (next_index, fields) ← read_children read_child (count n) (index + 1)
  t ← element_to_group (index == 0) e fields
  ok (next_index, t)

-- On fuel: a call for a child has a larger index.
unfoldable pub from_thrift_helper : (ℤ → ℤ) → ℕ → List SchemaElement → ℕ → Outcome (ℕ × SchemaType)
unfolding read_element
from_thrift_helper max_precision zero elements index = running
from_thrift_helper max_precision (suc fuel) elements index = do
  reject (ltb (length elements) index)
  e ← unwrap (get_elem? elements index)
  read_element max_precision (from_thrift_helper max_precision fuel elements) index e e.num_children

-- The loop of `from_thrift`, on fuel.
unfoldable pub read_nodes : (ℤ → ℤ) → ℕ → List SchemaElement → ℕ → Outcome (List SchemaType)
unfolding from_thrift_helper
read_nodes max_precision zero elements index =
    if ltb index (length elements) then running else ok []
read_nodes max_precision (suc fuel) elements index =
    if ltb index (length elements)
    then (do
      (next, t) ← from_thrift_helper max_precision (suc (length elements)) elements index
      ts ← read_nodes max_precision fuel elements next
      ok (t ∷ ts))
    else ok []

-- There is one root.
abbrev pub single_root : List SchemaType → Outcome SchemaType
single_root [] = err general
single_root (t ∷ []) = ok t
single_root (t ∷ (u ∷ ts)) = err general

unfoldable pub from_thrift : (ℤ → ℤ) → List SchemaElement → Outcome SchemaType
unfolding read_nodes
from_thrift max_precision elements = do
  nodes ← read_nodes max_precision (length elements) elements 0
  single_root nodes
