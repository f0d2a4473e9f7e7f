-- ===== src/Schema/Columns/Chains.antt =====
-- src/schema/types.rs: the columns of a schema, described by the ways from a field down to a leaf.
use Prim.Native.String.{String}
use parquet_rs.Prelude.{
  ℕ, ◌+◌, ◌≡◌, List, [], ◌∷◌, ◌++◌, map, append_assoc, Option, none, some, max, arith,
}
use parquet_rs.Basic.{Repetition, required, optional, repeated}
use parquet_rs.Schema.Types.{
  SchemaType, primitive_type, group_type, Fields, nil, cons, get_basic_info, name_of,
}
use parquet_rs.Schema.Columns.{ColumnDescriptor}

-- The ways down from a type to its leaves, the type itself first.
abbrev mutual
  pub chains : SchemaType → List (List SchemaType)
  chains (primitive_type info p l s d) = (primitive_type info p l s d ∷ []) ∷ []
  chains (group_type info fields) = map (λ c. group_type info fields ∷ c) (chains_of fields)

  pub chains_of : Fields → List (List SchemaType)
  chains_of nil = []
  chains_of (cons f fs) = chains f ++ chains_of fs

abbrev mutual
  pub depth : SchemaType → ℕ
  depth (primitive_type info p l s d) = 1
  depth (group_type info fields) = 1 + depth_of fields

  pub depth_of : Fields → ℕ
  depth_of nil = 0
  depth_of (cons f fs) = max (depth f) (depth_of fs)

-- Each type has a repetition.
abbrev mutual
  pub HasRepetitions : SchemaType → Type 0
  HasRepetitions (primitive_type info p l s d) = (r : Repetition) × (info.repetition ≡ some r)
  HasRepetitions (group_type info fields) =
      (r : Repetition) × (info.repetition ≡ some r) × HaveRepetitions fields

  pub HaveRepetitions : Fields → Type 0
  HaveRepetitions nil = Unit
  HaveRepetitions (cons f fs) = HasRepetitions f × HaveRepetitions fs

-- 1 for a type that may be missing.
abbrev pub is_defined : Option Repetition → ℕ
is_defined none = 0
is_defined (some required) = 0
is_defined (some optional) = 1
is_defined (some repeated) = 1

-- 1 for a type that may be repeated.
abbrev pub is_repeated : Option Repetition → ℕ
is_repeated none = 0
is_repeated (some required) = 0
is_repeated (some optional) = 0
is_repeated (some repeated) = 1

unfoldable pub repetition_in : SchemaType → Option Repetition
unfolding get_basic_info
repetition_in t = (get_basic_info t).repetition

abbrev pub sum_of : (Option Repetition → ℕ) → List SchemaType → ℕ
sum_of f [] = 0
sum_of f (t ∷ c) = f (repetition_in t) + sum_of f c

abbrev pub last_of : SchemaType → List SchemaType → SchemaType
last_of t [] = t
last_of t (u ∷ c) = last_of u c

-- The column at the end of a way down, below the levels and the path that are there already.
abbrev pub describe :
    SchemaType → List String → ℕ → ℕ → SchemaType → List SchemaType → ColumnDescriptor
describe root path rep_level def_level t c = record {
  self_type = last_of t c;
  root_type = some root;
  max_def_level = def_level + sum_of is_defined c;
  max_rep_level = rep_level + sum_of is_repeated c;
  path = path ++ map name_of c;
}

pub describe-cons :
    (root : SchemaType) (path : List String) (rep_level def_level : ℕ) (t u : SchemaType)
    (c : List SchemaType)
    → describe root
        (path ++ name_of u ∷ [])
        (rep_level + is_repeated (repetition_in u))
        (def_level + is_defined (repetition_in u))
        u
        c
      ≡ describe root path rep_level def_level t (u ∷ c)
describe-cons root path rep_level def_level t u c =
    let d : (def_level + is_defined (repetition_in u)) + sum_of is_defined c
        ≡ def_level + (is_defined (repetition_in u) + sum_of is_defined c) =
      omega arith in
    let r : (rep_level + is_repeated (repetition_in u)) + sum_of is_repeated c
        ≡ rep_level + (is_repeated (repetition_in u) + sum_of is_repeated c) =
      omega arith in
    cc (d, r, append_assoc path (name_of u ∷ []) (map name_of c))
