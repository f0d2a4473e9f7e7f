-- ===== src/Schema/Thrift/Messages.antt =====
-- src/schema/types.rs: the schemas that `to_thrift` writes in full, and their elements.
use parquet_rs.Prelude.{
  ◌<◌, ◌^◌, ◌≡◌, refl, ap, sym, ◌∙◌, List, [], ◌∷◌, ◌++◌, append_assoc, append_nil, true, Option,
  none, some, ok, ℤ, negsuc, le_int, to_i32,
}
use parquet_rs.Basic.{PhysicalType, Repetition}
use parquet_rs.Schema.Types.{
  BasicTypeInfo, SchemaType, primitive_type, group_type, Fields, nil, cons, num_fields,
}
use parquet_rs.Schema.Builder.{build}
use parquet_rs.Schema.Thrift.{SchemaElement, to_thrift_helper, to_thrift_fields}
use parquet_rs.Schema.Thrift.Elements.{
  primitive_of, group_of, builder_of, primitive_to_element_lem, group_to_element_lem,
}

-- A group has a child, and its number of children fits in an i32.
pub record Children (fields : Fields) : Type 0 where
  pub some_child : 0 < num_fields fields
  pub fits : num_fields fields < 2 ^ 31

-- A primitive type that its builder makes, with no number below -1.
pub record Leaf (max_precision : ℤ → ℤ) (info : BasicTypeInfo) (p : PhysicalType) (l s d : ℤ)
    : Type 0 where
  pub repetition : Repetition
  pub given : info.repetition ≡ some repetition
  pub built :
      build max_precision (builder_of info repetition p l s d) ≡ ok (primitive_type info p l s d)
  pub length_low : le_int (negsuc 0) l ≡ true
  pub scale_low : le_int (negsuc 0) s ≡ true
  pub precision_low : le_int (negsuc 0) d ≡ true

abbrev mutual
  -- A type below the root.
  pub IsField : (ℤ → ℤ) → SchemaType → Type 0
  IsField max_precision (primitive_type info p l s d) = Leaf max_precision info p l s d
  IsField max_precision (group_type info fields) =
      (r : Repetition) × (info.repetition ≡ some r)
      × Children fields
      × AreFields max_precision fields

  pub AreFields : (ℤ → ℤ) → Fields → Type 0
  AreFields max_precision nil = Unit
  AreFields max_precision (cons f fs) = IsField max_precision f × AreFields max_precision fs

-- A message type: a group without a repetition.
abbrev pub IsMessage : (ℤ → ℤ) → SchemaType → Type 0
IsMessage max_precision (primitive_type info p l s d) = ⊥
IsMessage max_precision (group_type info fields) =
    (info.repetition ≡ none) × Children fields × AreFields max_precision fields

-- The element of a primitive type whose repetition may be missing, for which none is made.
abbrev pub leaf_elements :
    BasicTypeInfo → Option Repetition → PhysicalType → ℤ → ℤ → ℤ → List SchemaElement
leaf_elements info none p l s d = []
leaf_elements info (some r) p l s d = primitive_of info r p l s d ∷ []

-- The elements of a type, in depth-first order.
abbrev mutual
  pub elements_of : SchemaType → List SchemaElement
  elements_of (primitive_type info p l s d) = leaf_elements info info.repetition p l s d
  elements_of (group_type info fields) =
      group_of info (to_i32 (num_fields fields)) ∷ elements_of_fields fields

  pub elements_of_fields : Fields → List SchemaElement
  elements_of_fields nil = []
  elements_of_fields (cons f fs) = elements_of f ++ elements_of_fields fs

module _ (max_precision : ℤ → ℤ) where
  mutual
    unfolding to_thrift_helper

    pub written :
        (t : SchemaType) (es : List SchemaElement)
        → IsField max_precision t
        → to_thrift_helper t es ≡ ok (es ++ elements_of t)
    written (primitive_type info p l s d) es h =
        rw (primitive_to_element_lem info h.repetition p l s d h.given, h.given) refl
    written (group_type info fields) es (r, given, children, each) =
        rw (group_to_element_lem info (num_fields fields)) (
          written_fields fields (es ++ group_of info (to_i32 (num_fields fields)) ∷ []) each
          ∙ ap ok (
              append_assoc es (group_of info (to_i32 (num_fields fields)) ∷ [])
                (elements_of_fields fields)))

    pub written_fields :
        (fields : Fields) (es : List SchemaElement)
        → AreFields max_precision fields
        → to_thrift_fields fields es ≡ ok (es ++ elements_of_fields fields)
    written_fields nil es each = ap ok (sym (append_nil es))
    written_fields (cons f fs) es (h, each) = rw (written f es h) (
        written_fields fs (es ++ elements_of f) each
        ∙ ap ok (append_assoc es (elements_of f) (elements_of_fields fs)))

  pub leaf_elements_lem :
      (info : BasicTypeInfo) (p : PhysicalType) (l s d : ℤ) (h : Leaf max_precision info p l s d)
      → leaf_elements info info.repetition p l s d ≡ primitive_of info h.repetition p l s d ∷ []
  leaf_elements_lem info p l s d h = ap (λ o. leaf_elements info o p l s d) h.given
