-- ===== src/Schema/Tests.antt =====
-- Runs of src/schema/types.rs on a small schema, and the theorems at them.
use Prim.Native.String.{String}
use parquet_rs.Prelude.{
  running, ◌≡◌, refl, ◌>>=◌, List, [], ◌∷◌, All, take, length, map, get_elem?, unwrap, Option, none,
  some, ok, err, general, panic, ℤ, pos, negsuc, ℕ, le_int, true, arith, suc, ◌+◌, ◌↔◌,
}
use parquet_rs.Basic.{
  int32, byte_array, int96, fixed_len_byte_array, LogicalType, utf8, date, decimal, required,
  optional, repeated, Repetition, type_eq, repetition_eq, get_sort_order, undefined,
}
use parquet_rs.Basic.Thrift.{
  ThriftType, ConvertedType, FieldRepetitionType, type_to_thrift, logical_type_to_thrift,
  repetition_to_thrift,
}
use parquet_rs.Schema.Types.{
  BasicTypeInfo, SchemaType, primitive_type, group_type, Fields, nil, cons,
}
use parquet_rs.Schema.Builder.{PrimitiveTypeBuilder, build}
use parquet_rs.Schema.Builder.Annotated.{IsAnnotated, type_of}
use parquet_rs.Schema.Builder.Limit.{max_precision}
use parquet_rs.Schema.Builder.Digits.{HoldsDigits}
use parquet_rs.Schema.Builder.Fits.{build_lem}
use parquet_rs.Schema.Builder.Valid.{build-get_sort_order}
use parquet_rs.Schema.Thrift.{SchemaElement, to_thrift, from_thrift, from_thrift_helper, read_nodes}
use parquet_rs.Schema.Thrift.Messages.{IsMessage}
use parquet_rs.Schema.Thrift.RoundTrip.{from_thrift-to_thrift}
use parquet_rs.Schema.Thrift.Truncated.{from_thrift-take}
use parquet_rs.Schema.Thrift.Fuel.{from_thrift_fuel}
use parquet_rs.Schema.Columns.{SchemaDescriptor, new_descriptor, get_column_root}
use parquet_rs.Schema.Columns.Chains.{chains, chains_of, describe}
use parquet_rs.Schema.Columns.Whole.{new_descriptor_lem, first_of}
use parquet_rs.Schema.Contains.{check_contains}
use parquet_rs.Schema.Contains.Outline.{HasOutline}
use parquet_rs.Schema.Contains.Sound.{check_contains_lem}

-- A limit for the precision of a decimal in a byte array.
abbrev ten : ℤ → ℤ
ten length = pos 10

abbrev info : String → Option Repetition → LogicalType → Option ℤ → BasicTypeInfo
info name repetition logical_type id = record {
  name = name;
  repetition = repetition;
  logical_type = logical_type;
  id = id;
}

abbrev name_info : BasicTypeInfo
name_info = info "name" (some optional) utf8 (some (pos 7))

abbrev price_info : BasicTypeInfo
price_info = info "price" (some required) decimal none

abbrev items : Fields
items =
    cons (primitive_type name_info byte_array (negsuc 0) (negsuc 0) (negsuc 0))
      (cons (primitive_type price_info int32 (negsuc 0) (pos 2) (pos 9)) nil)

abbrev item : SchemaType
item = group_type (info "item" (some repeated) LogicalType.none_type none) items

abbrev day : SchemaType
day = primitive_type (info "day" (some required) date none) int32 (negsuc 0) (negsuc 0) (negsuc 0)

abbrev root_info : BasicTypeInfo
root_info = info "order" none LogicalType.none_type none

abbrev order : SchemaType
order = group_type root_info (cons item (cons day nil))

-- The same schema without its day.
abbrev projection : SchemaType
projection = group_type root_info (cons item nil)

order-IsMessage : IsMessage ten order
unfolding build type_eq
order-IsMessage = (
  refl,
  record { some_child = omega arith; fits = omega arith },
  (
    (
      repeated,
      refl,
      record { some_child = omega arith; fits = omega arith },
      (
        record {
          repetition = optional;
          given = refl;
          built = refl;
          length_low = refl;
          scale_low = refl;
          precision_low = refl;
        },
        (
          record {
            repetition = required;
            given = refl;
            built = refl;
            length_low = refl;
            scale_low = refl;
            precision_low = refl;
          },
          tt,
        ),
      ),
    ),
    (
      record {
        repetition = required;
        given = refl;
        built = refl;
        length_low = refl;
        scale_low = refl;
        precision_low = refl;
      },
      tt,
    ),
  ),
)

abbrev element_of :
    Option ThriftType
    → Option FieldRepetitionType
    → String
    → Option ℤ
    → Option ConvertedType
    → Option ℤ
    → Option ℤ
    → Option ℤ
    → SchemaElement
element_of type_ repetition name children converted scale precision id = record {
  type_ = type_;
  type_length = none;
  repetition_type = repetition;
  name = name;
  num_children = children;
  converted_type = converted;
  scale = scale;
  precision = precision;
  field_id = id;
}

-- The elements of the schema.
abbrev order_elements : List SchemaElement
order_elements =
    element_of none none "order" (some (pos 2)) none none none none
    ∷ element_of none (some FieldRepetitionType.repeated) "item" (some (pos 2)) none none none none
    ∷ element_of (some ThriftType.byte_array) (some FieldRepetitionType.optional) "name" none
        (some ConvertedType.utf8) none none (some (pos 7))
    ∷ element_of (some ThriftType.int32) (some FieldRepetitionType.required) "price" none
        (some ConvertedType.decimal) (some (pos 2)) (some (pos 9)) none
    ∷ element_of (some ThriftType.int32) (some FieldRepetitionType.required) "day" none
        (some ConvertedType.date) none none none
    ∷ []

order_written : to_thrift order ≡ ok order_elements
unfolding to_thrift type_to_thrift logical_type_to_thrift repetition_to_thrift
order_written = refl

from_thrift-take_example : from_thrift ten (take 4 order_elements) ≡ panic
from_thrift-take_example =
    from_thrift-take ten order order_elements 4 order-IsMessage order_written (omega arith)
      (omega arith)

from_thrift_fuel_example :
    ¬ (from_thrift ten order_elements ≡ running)
    × ¬ (from_thrift_helper ten (suc (length order_elements) + 10) order_elements 1 ≡ running)
    × ¬ (read_nodes ten (length order_elements + 10) order_elements 1 ≡ running)
    × (from_thrift_helper ten (suc (length order_elements) + 10) order_elements 1
        ≡ from_thrift_helper ten (suc (length order_elements)) order_elements 1)
    × (read_nodes ten (length order_elements + 10) order_elements 1
        ≡ read_nodes ten (length order_elements) order_elements 1)
from_thrift_fuel_example = from_thrift_fuel ten order_elements 10 1

from_thrift-to_thrift_example : (to_thrift order >>= from_thrift ten) ≡ ok order
from_thrift-to_thrift_example = from_thrift-to_thrift ten order order-IsMessage

check_contains_run : check_contains order projection ≡ ok true
unfolding check_contains type_eq repetition_eq
check_contains_run = refl

check_contains_example : All (HasOutline (chains order)) (chains projection)
check_contains_example = check_contains_lem order projection check_contains_run

new_descriptor_example :
    (d : SchemaDescriptor) × (new_descriptor order ≡ ok d)
    × (d.leaves ≡ map (describe order [] 0 0 order) (chains_of (cons item (cons day nil))))
    × ((i : ℕ)
        → get_column_root d i
          ≡ unwrap (get_elem? (map (first_of order) (chains_of (cons item (cons day nil)))) i))
new_descriptor_example =
    new_descriptor_lem root_info (cons item (cons day nil))
      ((repeated, refl, ((optional, refl), ((required, refl), tt))), ((required, refl), tt))
      (omega arith)

-- A decimal of 9 digits.
abbrev price_builder : ℤ → ℤ → PrimitiveTypeBuilder
price_builder length precision = record {
  name = "price";
  repetition = required;
  physical_type = fixed_len_byte_array;
  logical_type = decimal;
  length = length;
  precision = precision;
  scale = pos 2;
  id = none;
}

abbrev wide_price : PrimitiveTypeBuilder
wide_price = price_builder (pos 16) (pos 38)

build_example : (build max_precision wide_price ≡ ok (type_of wide_price)) ↔ (
    ((fixed_len_byte_array ≡ fixed_len_byte_array) → le_int (pos 0) (pos 16) ≡ true)
    × IsAnnotated HoldsDigits decimal wide_price
    × (type_of wide_price ≡ type_of wide_price))
build_example = build_lem wide_price (type_of wide_price) refl refl

-- Sixteen bytes hold 38 digits, and not 39.
build_wide : build max_precision wide_price ≡ ok (type_of wide_price)
unfolding build type_eq max_precision
build_wide = refl

build_too_wide : build max_precision (price_builder (pos 16) (pos 39)) ≡ err general
unfolding build type_eq max_precision
build_too_wide = refl

-- A length of 129 bytes passes with any precision: its 1031 bits do not hold 400 digits.
build_unlimited :
    let b = price_builder (pos 129) (pos 400) in build max_precision b ≡ ok (type_of b)
unfolding build type_eq max_precision
build_unlimited = refl

abbrev time_builder : PrimitiveTypeBuilder
time_builder = record {
  name = "time";
  repetition = optional;
  physical_type = int96;
  logical_type = LogicalType.none_type;
  length = negsuc 0;
  precision = negsuc 0;
  scale = negsuc 0;
  id = none;
}

time_built : build ten time_builder ≡ ok (type_of time_builder)
unfolding build type_eq
time_built = refl

time_order : get_sort_order LogicalType.none_type int96 ≡ undefined
unfolding get_sort_order
time_order = refl

build-get_sort_order_example : (LogicalType.none_type ≡ LogicalType.none_type) × (int96 ≡ int96)
build-get_sort_order_example =
    build-get_sort_order ten time_builder (type_of time_builder) time_built time_order
