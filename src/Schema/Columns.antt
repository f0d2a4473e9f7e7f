-- ===== src/Schema/Columns.antt =====
-- src/schema/types.rs: `ColumnPath`, `ColumnDescriptor`, `SchemaDescriptor` and `build_tree`. A level
-- is an i16, by its two's complement. `leaf_to_base` is an association list, its last entry first.
pub mod Chains
mod Build
pub mod Whole
use Prim.Native.String.{String}
use parquet_rs.Prelude.{
  ℕ, zero, suc, ◌+◌, ◌-◌, ◌%◌, ◌^◌, List, [], ◌∷◌, ◌++◌, length, get_elem?, take, Bool, true, false,
  Option, none, some, Outcome, ok, assert, unwrap, panic, ◌>>=◌, ◌>>◌, ltb, ◌==◌, if◌then◌else◌,
}
use parquet_rs.Basic.{Repetition, required, optional, repeated}
use parquet_rs.Schema.Types.{
  BasicTypeInfo, SchemaType, primitive_type, group_type, Fields, nil, cons, get_basic_info,
  has_repetition, repetition_of, name_of, is_group, get_fields,
}

pub record ColumnDescriptor : Type 0 where
  pub self_type : SchemaType
  pub root_type : Option SchemaType
  pub max_def_level : ℕ
  pub max_rep_level : ℕ
  pub path : List String

-- What `build_tree` changes.
pub record Tree : Type 0 where
  pub leaves : List ColumnDescriptor
  pub leaf_to_base : List (ℕ × SchemaType)
  pub path_so_far : List String

-- The `match` on the repetition, for the definition level.
unfoldable pub next_def_level : Repetition → ℕ → ℕ
next_def_level required level = level
next_def_level optional level = (level + 1) % 2 ^ 16
next_def_level repeated level = (level + 1) % 2 ^ 16

-- The `match` on the repetition, for the repetition level.
unfoldable pub next_rep_level : Repetition → ℕ → ℕ
next_rep_level required level = level
next_rep_level optional level = level
next_rep_level repeated level = (level + 1) % 2 ^ 16

-- `remove(len() - 1)`, which panics on an empty path.
unfoldable pub remove_last : List String → Outcome (List String)
remove_last path = do assert (ltb 0 (length path)); ok (take (length path - 1) path)

-- The arm of `build_tree` for a primitive type.
unfoldable pub push_leaf : SchemaType → SchemaType → SchemaType → ℕ → ℕ → Tree → Tree
push_leaf t root_tp base_tp rep_level def_level s = record s {
  leaves =
      s.leaves
      ++ (record {
        self_type = t;
        root_type = some root_tp;
        max_def_level = def_level;
        max_rep_level = rep_level;
        path = s.path_so_far;
      })
        ∷ [];
  leaf_to_base = (length s.leaves, base_tp) ∷ s.leaf_to_base;
}

unfoldable mutual
  unfolding has_repetition repetition_of push_leaf next_def_level next_rep_level remove_last

  pub build_tree : SchemaType → SchemaType → SchemaType → ℕ → ℕ → Tree → Outcome Tree
  build_tree (primitive_type info physical_type type_length scale precision) root_tp base_tp
        max_rep_level max_def_level s =
      do
        assert (has_repetition info)
        let s1 = record s { path_so_far = s.path_so_far ++ info.name ∷ [] }
        repetition ← repetition_of info
        ok (
            push_leaf (primitive_type info physical_type type_length scale precision) root_tp
              base_tp (next_rep_level repetition max_rep_level)
              (next_def_level repetition max_def_level) s1)
  build_tree (group_type info fields) root_tp base_tp max_rep_level max_def_level s = do
    assert (has_repetition info)
    let s1 = record s { path_so_far = s.path_so_far ++ info.name ∷ [] }
    repetition ← repetition_of info
    build_fields fields root_tp base_tp (next_rep_level repetition max_rep_level)
        (next_def_level repetition max_def_level) s1

  -- The loop over the fields of a group, each of which takes its name off the path again.
  pub build_fields : Fields → SchemaType → SchemaType → ℕ → ℕ → Tree → Outcome Tree
  build_fields nil root_tp base_tp rep_level def_level s = ok s
  build_fields (cons f fs) root_tp base_tp rep_level def_level s = do
    s1 ← build_tree f root_tp base_tp rep_level def_level s
    path ← remove_last s1.path_so_far
    build_fields fs root_tp base_tp rep_level def_level (record s1 { path_so_far = path })

pub record SchemaDescriptor : Type 0 where
  pub schema : SchemaType
  pub leaves : List ColumnDescriptor
  pub leaf_to_base : List (ℕ × SchemaType)

-- The loop of `SchemaDescriptor::new`: each field of the root starts on an empty path.
unfoldable pub build_roots :
    Fields → SchemaType → List ColumnDescriptor → List (ℕ × SchemaType) → Outcome SchemaDescriptor
unfolding build_tree
build_roots nil tp leaves leaf_to_base =
    ok (record { schema = tp; leaves = leaves; leaf_to_base = leaf_to_base })
build_roots (cons f fs) tp leaves leaf_to_base = do
  s ←
      build_tree f tp f 0 0
        (record { leaves = leaves; leaf_to_base = leaf_to_base; path_so_far = [] })
  build_roots fs tp s.leaves s.leaf_to_base

unfoldable pub new_descriptor : SchemaType → Outcome SchemaDescriptor
unfolding is_group get_fields build_roots
new_descriptor tp = do assert (is_group tp); fields ← get_fields tp; build_roots fields tp [] []

unfoldable pub num_columns : SchemaDescriptor → ℕ
num_columns d = length d.leaves

unfoldable pub column : SchemaDescriptor → ℕ → Outcome ColumnDescriptor
column d i = do assert (ltb i (length d.leaves)); unwrap (get_elem? d.leaves i)

-- `HashMap::get`
abbrev pub lookup {ℓ} : {A : Type ℓ} → ℕ → List (ℕ × A) → Option A
lookup i [] = none
lookup i ((j, a) ∷ entries) = if i == j then some a else lookup i entries

unfoldable pub get_column_root : SchemaDescriptor → ℕ → Outcome SchemaType
get_column_root d i = do assert (ltb i (length d.leaves)); unwrap (lookup i d.leaf_to_base)
