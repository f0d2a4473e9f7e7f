-- ===== src/Schema/Builder.antt =====
-- src/schema/types.rs: `PrimitiveTypeBuilder`. `build` takes the limit of a decimal's digits as an
-- argument, so that what does not depend on it is proved for any. The code's limit,
-- `(2f64.powi(8 * length - 1) - 1f64).log10().floor() as i32`, is `max_precision` of Builder/Limit.antt.
pub mod Annotated
pub mod Valid
pub mod Limit
pub mod Digits
pub mod Fits
use Prim.Native.String.{String}
use parquet_rs.Prelude.{
  Bool, true, false, not, ◌&&◌, ◌||◌, Option, none, some, Outcome, ok, err, general, reject, ◌>>=◌,
  ◌>>◌, ℤ, pos, negsuc, lt_int, le_int, eq_int,
}
use parquet_rs.Basic.{
  PhysicalType, int32, int64, byte_array, fixed_len_byte_array, type_eq, LogicalType, none_type,
  Repetition, optional,
}
use parquet_rs.Schema.Types.{BasicTypeInfo, SchemaType, primitive_type, group_type}

pub record PrimitiveTypeBuilder : Type 0 where
  pub name : String
  pub repetition : Repetition
  pub physical_type : PhysicalType
  pub logical_type : LogicalType
  pub length : ℤ
  pub precision : ℤ
  pub scale : ℤ
  pub id : Option ℤ

unfoldable pub primitive_type_builder : String → PhysicalType → PrimitiveTypeBuilder
primitive_type_builder name physical_type = record {
  name = name;
  repetition = optional;
  physical_type = physical_type;
  logical_type = none_type;
  length = negsuc 0;
  precision = negsuc 0;
  scale = negsuc 0;
  id = none;
}

unfoldable pub with_repetition : Repetition → PrimitiveTypeBuilder → PrimitiveTypeBuilder
with_repetition repetition b = record b { repetition = repetition }

unfoldable pub with_logical_type : LogicalType → PrimitiveTypeBuilder → PrimitiveTypeBuilder
with_logical_type logical_type b = record b { logical_type = logical_type }

unfoldable pub with_length : ℤ → PrimitiveTypeBuilder → PrimitiveTypeBuilder
with_length length b = record b { length = length }

unfoldable pub with_precision : ℤ → PrimitiveTypeBuilder → PrimitiveTypeBuilder
with_precision precision b = record b { precision = precision }

unfoldable pub with_scale : ℤ → PrimitiveTypeBuilder → PrimitiveTypeBuilder
with_scale scale b = record b { scale = scale }

unfoldable pub with_id : ℤ → PrimitiveTypeBuilder → PrimitiveTypeBuilder
with_id id b = record b { id = some id }

-- The `match` on the physical type that a decimal may have.
unfoldable pub check_decimal_type : PhysicalType → Outcome (Unit {0})
check_decimal_type int32 = ok tt
check_decimal_type int64 = ok tt
check_decimal_type byte_array = ok tt
check_decimal_type fixed_len_byte_array = ok tt
check_decimal_type _ = err general

-- The `match` on the physical type that limits a decimal's precision.
unfoldable pub check_decimal_limit : (ℤ → ℤ) → PhysicalType → ℤ → ℤ → Outcome (Unit {0})
check_decimal_limit max_precision int32 length precision = reject (lt_int (pos 9) precision)
check_decimal_limit max_precision int64 length precision = reject (lt_int (pos 18) precision)
check_decimal_limit max_precision fixed_len_byte_array length precision =
    reject (lt_int (max_precision length) precision)
check_decimal_limit max_precision _ length precision = ok tt

unfoldable pub check_decimal : (ℤ → ℤ) → PrimitiveTypeBuilder → Outcome (Unit {0})
unfolding check_decimal_type check_decimal_limit
check_decimal max_precision b = do
  check_decimal_type b.physical_type
  reject (lt_int b.precision (pos 1))
  reject (lt_int b.scale (pos 0))
  reject (le_int b.precision b.scale)
  check_decimal_limit max_precision b.physical_type b.length b.precision

-- The `match` of `build` on the logical type.
unfoldable pub check_logical_type :
    (ℤ → ℤ) → LogicalType → PrimitiveTypeBuilder → Outcome (Unit {0})
unfolding check_decimal
check_logical_type max_precision LogicalType.none_type b = ok tt
check_logical_type max_precision LogicalType.utf8 b =
    reject (not (type_eq b.physical_type byte_array))
check_logical_type max_precision LogicalType.bson b =
    reject (not (type_eq b.physical_type byte_array))
check_logical_type max_precision LogicalType.json b =
    reject (not (type_eq b.physical_type byte_array))
check_logical_type max_precision LogicalType.decimal b = check_decimal max_precision b
check_logical_type max_precision LogicalType.date b = reject (not (type_eq b.physical_type int32))
check_logical_type max_precision LogicalType.time_millis b =
    reject (not (type_eq b.physical_type int32))
check_logical_type max_precision LogicalType.uint_8 b = reject (not (type_eq b.physical_type int32))
check_logical_type max_precision LogicalType.uint_16 b =
    reject (not (type_eq b.physical_type int32))
check_logical_type max_precision LogicalType.uint_32 b =
    reject (not (type_eq b.physical_type int32))
check_logical_type max_precision LogicalType.int_8 b = reject (not (type_eq b.physical_type int32))
check_logical_type max_precision LogicalType.int_16 b = reject (not (type_eq b.physical_type int32))
check_logical_type max_precision LogicalType.int_32 b = reject (not (type_eq b.physical_type int32))
check_logical_type max_precision LogicalType.time_micros b =
    reject (not (type_eq b.physical_type int64))
check_logical_type max_precision LogicalType.timestamp_millis b =
    reject (not (type_eq b.physical_type int64))
check_logical_type max_precision LogicalType.timestamp_micros b =
    reject (not (type_eq b.physical_type int64))
check_logical_type max_precision LogicalType.uint_64 b =
    reject (not (type_eq b.physical_type int64))
check_logical_type max_precision LogicalType.int_64 b = reject (not (type_eq b.physical_type int64))
check_logical_type max_precision LogicalType.interval b =
    reject (not (type_eq b.physical_type fixed_len_byte_array) || not (eq_int b.length (pos 12)))
check_logical_type max_precision LogicalType.enum b =
    reject (not (type_eq b.physical_type byte_array))
check_logical_type max_precision _ b = err general

unfoldable pub build : (ℤ → ℤ) → PrimitiveTypeBuilder → Outcome SchemaType
unfolding check_logical_type
build max_precision b = do
  let basic_info : BasicTypeInfo = record {
    name = b.name;
    repetition = some b.repetition;
    logical_type = b.logical_type;
    id = b.id;
  }
  reject (type_eq b.physical_type fixed_len_byte_array && lt_int b.length (pos 0))
  check_logical_type max_precision b.logical_type b
  ok (primitive_type basic_info b.physical_type b.length b.scale b.precision)
