-- ===== src/Basic/Tests.antt =====
-- The theorems on the texts of src/basic.rs at some texts.
use Prim.Native.String.{String}
use parquet_rs.Prelude.{◌≡◌, ◌↔◌, ◌⊎◌, ok, err, general}
use parquet_rs.Basic.{LogicalType, byte_array}
use parquet_rs.Basic.Texts.{
  logical_type_from_str, logical_type_to_string, physical_type_from_str, physical_type_to_string,
}
use parquet_rs.Basic.Texts.RoundTrip.{logical_type_from_str_lem, physical_type_from_str_lem}

logical_type_from_str_example :
    ((t : LogicalType)
      → (logical_type_from_str "TIME" ≡ ok t) ↔ (logical_type_to_string t ≡ "TIME"))
    × (((t : LogicalType) → ¬ (logical_type_to_string t ≡ "TIME"))
        → logical_type_from_str "TIME" ≡ err general)
logical_type_from_str_example = logical_type_from_str_lem "TIME"

physical_type_from_str_example : (physical_type_from_str "BINARY" ≡ ok byte_array) ↔ (
    (physical_type_to_string byte_array ≡ "BINARY")
    ⊎ ((◌≡◌ {A = String} "BINARY" "BINARY") × (byte_array ≡ byte_array)))
physical_type_from_str_example = physical_type_from_str_lem "BINARY" byte_array
