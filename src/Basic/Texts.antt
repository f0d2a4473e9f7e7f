-- ===== src/Basic/Texts.antt =====
-- src/basic.rs: the `Display` and `FromStr` of the enumerations.
pub mod RoundTrip
use Prim.Native.String.{String}
use text.Mathlib.Text.{◌==◌}
use parquet_rs.Prelude.{List, [], ◌∷◌, Outcome, ok, err, general, if◌then◌else◌}
use parquet_rs.Basic.{
  PhysicalType, boolean, int32, int64, int96, float, double, byte_array, fixed_len_byte_array,
  LogicalType, none_type, utf8, map, map_key_value, list, enum, decimal, date, time_millis,
  time_micros, timestamp_millis, timestamp_micros, uint_8, uint_16, uint_32, uint_64, int_8, int_16,
  int_32, int_64, json, bson, interval, Repetition, required, optional, repeated,
}

-- A `match` on a text: the arms in order, then the arm of any other text, which is an error.
unfoldable pub match_arms {ℓ} : {A : Type ℓ} → String → List (String × A) → Outcome A
match_arms s [] = err general
match_arms s ((name, value) ∷ arms) = if name == s then ok value else match_arms s arms

unfoldable pub physical_type_to_string : PhysicalType → String
physical_type_to_string boolean = "BOOLEAN"
physical_type_to_string int32 = "INT32"
physical_type_to_string int64 = "INT64"
physical_type_to_string int96 = "INT96"
physical_type_to_string float = "FLOAT"
physical_type_to_string double = "DOUBLE"
physical_type_to_string byte_array = "BYTE_ARRAY"
physical_type_to_string fixed_len_byte_array = "FIXED_LEN_BYTE_ARRAY"

unfoldable pub logical_type_to_string : LogicalType → String
logical_type_to_string none_type = "NONE"
logical_type_to_string utf8 = "UTF8"
logical_type_to_string map = "MAP"
logical_type_to_string map_key_value = "MAP_KEY_VALUE"
logical_type_to_string list = "LIST"
logical_type_to_string enum = "ENUM"
logical_type_to_string decimal = "DECIMAL"
logical_type_to_string date = "DATE"
logical_type_to_string time_millis = "TIME_MILLIS"
logical_type_to_string time_micros = "TIME_MICROS"
logical_type_to_string timestamp_millis = "TIMESTAMP_MILLIS"
logical_type_to_string timestamp_micros = "TIMESTAMP_MICROS"
logical_type_to_string uint_8 = "UINT_8"
logical_type_to_string uint_16 = "UINT_16"
logical_type_to_string uint_32 = "UINT_32"
logical_type_to_string uint_64 = "UINT_64"
logical_type_to_string int_8 = "INT_8"
logical_type_to_string int_16 = "INT_16"
logical_type_to_string int_32 = "INT_32"
logical_type_to_string int_64 = "INT_64"
logical_type_to_string json = "JSON"
logical_type_to_string bson = "BSON"
logical_type_to_string interval = "INTERVAL"

unfoldable pub repetition_to_string : Repetition → String
repetition_to_string required = "REQUIRED"
repetition_to_string optional = "OPTIONAL"
repetition_to_string repeated = "REPEATED"

unfoldable pub repetition_arms : List (String × Repetition)
repetition_arms = ("REQUIRED", required) ∷ ("OPTIONAL", optional) ∷ ("REPEATED", repeated) ∷ []

unfoldable pub repetition_from_str : String → Outcome Repetition
unfolding match_arms repetition_arms
repetition_from_str s = match_arms s repetition_arms

unfoldable pub physical_type_arms : List (String × PhysicalType)
physical_type_arms =
    ("BOOLEAN", boolean)
    ∷ ("INT32", int32)
    ∷ ("INT64", int64)
    ∷ ("INT96", int96)
    ∷ ("FLOAT", float)
    ∷ ("DOUBLE", double)
    ∷ ("BYTE_ARRAY", byte_array)
    ∷ ("BINARY", byte_array)
    ∷ ("FIXED_LEN_BYTE_ARRAY", fixed_len_byte_array)
    ∷ []

unfoldable pub physical_type_from_str : String → Outcome PhysicalType
unfolding match_arms physical_type_arms
physical_type_from_str s = match_arms s physical_type_arms

unfoldable pub logical_type_arms : List (String × LogicalType)
logical_type_arms =
    ("NONE", none_type)
    ∷ ("UTF8", utf8)
    ∷ ("MAP", map)
    ∷ ("MAP_KEY_VALUE", map_key_value)
    ∷ ("LIST", list)
    ∷ ("ENUM", enum)
    ∷ ("DECIMAL", decimal)
    ∷ ("DATE", date)
    ∷ ("TIME_MILLIS", time_millis)
    ∷ ("TIME_MICROS", time_micros)
    ∷ ("TIMESTAMP_MILLIS", timestamp_millis)
    ∷ ("TIMESTAMP_MICROS", timestamp_micros)
    ∷ ("UINT_8", uint_8)
    ∷ ("UINT_16", uint_16)
    ∷ ("UINT_32", uint_32)
    ∷ ("UINT_64", uint_64)
    ∷ ("INT_8", int_8)
    ∷ ("INT_16", int_16)
    ∷ ("INT_32", int_32)
    ∷ ("INT_64", int_64)
    ∷ ("JSON", json)
    ∷ ("BSON", bson)
    ∷ ("INTERVAL", interval)
    ∷ []

unfoldable pub logical_type_from_str : String → Outcome LogicalType
unfolding match_arms logical_type_arms
logical_type_from_str s = match_arms s logical_type_arms
