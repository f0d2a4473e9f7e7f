-- ===== src/Schema/GroupBuilder.antt =====
-- src/schema/types.rs: `GroupTypeBuilder`.
use Prim.Native.String.{String}
use parquet_rs.Prelude.{Option, none, some, Outcome, ok, ℤ}
use parquet_rs.Basic.{LogicalType, none_type, Repetition}
use parquet_rs.Schema.Types.{BasicTypeInfo, SchemaType, group_type, Fields, nil, append_fields}

pub record GroupTypeBuilder : Type 0 where
  pub name : String
  pub repetition : Option Repetition
  pub logical_type : LogicalType
  pub fields : Fields
  pub id : Option ℤ

unfoldable pub group_type_builder : String → GroupTypeBuilder
group_type_builder name = record {
  name = name;
  repetition = none;
  logical_type = none_type;
  fields = nil;
  id = none;
}

unfoldable pub with_repetition : Repetition → GroupTypeBuilder → GroupTypeBuilder
with_repetition repetition b = record b { repetition = some repetition }

unfoldable pub with_logical_type : LogicalType → GroupTypeBuilder → GroupTypeBuilder
with_logical_type logical_type b = record b { logical_type = logical_type }

unfoldable pub with_id : ℤ → GroupTypeBuilder → GroupTypeBuilder
with_id id b = record b { id = some id }

unfoldable pub with_fields : Fields → GroupTypeBuilder → GroupTypeBuilder
with_fields fields b = record b { fields = append_fields b.fields fields }

unfoldable pub build_group : GroupTypeBuilder → Outcome SchemaType
build_group b = do
  let basic_info : BasicTypeInfo = record {
    name = b.name;
    repetition = b.repetition;
    logical_type = b.logical_type;
    id = b.id;
  }
  ok (group_type basic_info b.fields)
