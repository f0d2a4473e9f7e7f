-- ===== src/Basic.antt =====
-- src/basic.rs: the enumerations of the format's metadata, the orders of a column's statistics, and
-- the texts that the schema's text format uses. `LogicalType.none_type` is the code's `NONE`.
pub mod Texts
pub mod Equality
mod Tests
pub mod Thrift
use parquet_rs.Prelude.{ℕ, Bool, ◌==◌}

pub data PhysicalType : Type 0 where
  boolean int32 int64 int96 float double : PhysicalType
  byte_array fixed_len_byte_array : PhysicalType

pub data LogicalType : Type 0 where
  none_type utf8 map map_key_value list enum : LogicalType
  decimal date time_millis time_micros timestamp_millis timestamp_micros : LogicalType
  uint_8 uint_16 uint_32 uint_64 int_8 int_16 : LogicalType
  int_32 int_64 json bson interval : LogicalType

pub data Repetition : Type 0 where
  required optional repeated : Repetition

pub data Encoding : Type 0 where
  plain plain_dictionary rle bit_packed delta_binary_packed delta_length_byte_array : Encoding
  delta_byte_array rle_dictionary : Encoding

pub data Compression : Type 0 where
  uncompressed snappy gzip lzo brotli lz4 : Compression
  zstd : Compression

pub data PageType : Type 0 where
  data_page index_page dictionary_page data_page_v2 : PageType

pub data SortOrder : Type 0 where
  signed unsigned undefined : SortOrder

pub data ColumnOrder : Type 0 where
  type_defined_order : SortOrder → ColumnOrder
  undefined_order : ColumnOrder

unfoldable pub get_default_sort_order : PhysicalType → SortOrder
get_default_sort_order boolean = unsigned
get_default_sort_order int32 = signed
get_default_sort_order int64 = signed
get_default_sort_order int96 = undefined
get_default_sort_order float = signed
get_default_sort_order double = signed
get_default_sort_order byte_array = unsigned
get_default_sort_order fixed_len_byte_array = unsigned

unfoldable pub get_sort_order : LogicalType → PhysicalType → SortOrder
unfolding get_default_sort_order
get_sort_order utf8 physical_type = unsigned
get_sort_order json physical_type = unsigned
get_sort_order bson physical_type = unsigned
get_sort_order enum physical_type = unsigned
get_sort_order int_8 physical_type = signed
get_sort_order int_16 physical_type = signed
get_sort_order int_32 physical_type = signed
get_sort_order int_64 physical_type = signed
get_sort_order uint_8 physical_type = unsigned
get_sort_order uint_16 physical_type = unsigned
get_sort_order uint_32 physical_type = unsigned
get_sort_order uint_64 physical_type = unsigned
get_sort_order decimal physical_type = signed
get_sort_order date physical_type = signed
get_sort_order time_millis physical_type = signed
get_sort_order time_micros physical_type = signed
get_sort_order timestamp_millis physical_type = signed
get_sort_order timestamp_micros physical_type = signed
get_sort_order interval physical_type = unsigned
get_sort_order list physical_type = undefined
get_sort_order map physical_type = undefined
get_sort_order map_key_value physical_type = undefined
get_sort_order none_type physical_type = get_default_sort_order physical_type

unfoldable pub sort_order : ColumnOrder → SortOrder
sort_order (type_defined_order order) = order
sort_order undefined_order = signed

-- `PartialEq` of an enumeration without data compares the discriminants.
abbrev pub type_discriminant : PhysicalType → ℕ
type_discriminant boolean = 0
type_discriminant int32 = 1
type_discriminant int64 = 2
type_discriminant int96 = 3
type_discriminant float = 4
type_discriminant double = 5
type_discriminant byte_array = 6
type_discriminant fixed_len_byte_array = 7

unfoldable pub type_eq : PhysicalType → PhysicalType → Bool
type_eq t u = type_discriminant t == type_discriminant u

abbrev pub repetition_discriminant : Repetition → ℕ
repetition_discriminant required = 0
repetition_discriminant optional = 1
repetition_discriminant repeated = 2

unfoldable pub repetition_eq : Repetition → Repetition → Bool
repetition_eq r s = repetition_discriminant r == repetition_discriminant s
