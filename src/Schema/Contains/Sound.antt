-- ===== src/Schema/Contains/Sound.antt =====
-- src/schema/types.rs: `check_contains` lets a schema pass only if its columns are there.
use Prim.Native.String.{String}
use parquet_rs.Prelude.{
  ◌≡◌, refl, ap, ap₂, ◌∙◌, inl, inr, List, [], ◌∷◌, map, Option, none, some, Outcome, ok, bind_ok,
  Bool, true, false, ◌&&◌, if◌then◌else◌, All, All-append,
}
use parquet_rs.Basic.{type_eq}
use parquet_rs.Basic.Equality.{type_eq_iff}
use parquet_rs.Schema.Types.{SchemaType, primitive_type, group_type, Fields, nil, cons, name_of}
use parquet_rs.Schema.Contains.{basic_match, field_map, find_field, check_contains, check_fields}
use parquet_rs.Schema.Columns.Chains.{chains, chains_of}
use parquet_rs.Schema.Contains.Outline.{
  outline, HasOutline, InFields, Among-chains_of, Among-map, find-field_map, basic_match-outline,
}

HasOutline-fields :
    (t : SchemaType) (fields : Fields) (cs : List (List SchemaType))
    → InFields t fields
    → All (HasOutline (chains t)) cs
    → All (HasOutline (chains_of fields)) cs
HasOutline-fields t fields [] h each = tt
HasOutline-fields t fields (c ∷ cs) h ((d, among, same), each) =
    ((d, Among-chains_of t fields d h among, same), HasOutline-fields t fields cs h each)

HasOutline-group :
    (t u : SchemaType) (ds cs : List (List SchemaType))
    → outline t ≡ outline u
    → All (HasOutline ds) cs
    → All (HasOutline (map (λ d. t ∷ d) ds)) (map (λ c. u ∷ c) cs)
HasOutline-group t u ds [] e each = tt
HasOutline-group t u ds (c ∷ cs) e ((d, among, same), each) =
    ((t ∷ d, Among-map t d ds among, ap₂ ◌∷◌ e same), HasOutline-group t u ds cs e each)

both_true : (b c : Bool) → (b && c) ≡ true → (b ≡ true) × (c ≡ true)
both_true true true h = (refl, refl)
both_true true false h = cc h
both_true false c h = cc h

if_ok :
    (b : Bool) (o : Outcome Bool)
    → (if b then o else ok false) ≡ ok true
    → (b ≡ true) × (o ≡ ok true)
if_ok true o h = (refl, h)
if_ok false o h = cc h

-- What the loop finds for a field.
found_field :
    (o : Option SchemaType) (f : SchemaType)
    → (elim o as (λ x. Outcome Bool) [ none ↦ ok false | some t ↦ check_contains t f ]) ≡ ok true
    → (t : SchemaType) × (o ≡ some t) × (check_contains t f ≡ ok true)
found_field none f h = cc h
found_field (some t) f h = (t, refl, h)

in_fields :
    (fields : Fields) (name : String) (t : SchemaType)
    → find_field name (field_map fields []) ≡ some t
    → InFields t fields
in_fields fields name t h = elim (find-field_map fields [] name t h) [
  | inl inside ↦ inside
  | inr nothing ↦ unfold find_field in cc nothing
]

mutual
  unfolding check_contains

  contained :
      (self sub_type : SchemaType)
      → check_contains self sub_type ≡ ok true
      → All (HasOutline (chains self)) (chains sub_type)
  contained (primitive_type info p l s d) (primitive_type info' p' l' s' d') h =
      let t = primitive_type info p l s d in
      let u = primitive_type info' p' l' s' d' in
      let (basic, e, h1) = bind_ok (basic_match t u) (λ b. ok (b && type_eq p p')) h in
      let both : (basic && type_eq p p') ≡ true = cc h1 in
      let (matched, same) = both_true basic (type_eq p p') both in
      let o = basic_match-outline t u (e ∙ ap ok matched) (ap some ((type_eq_iff p p').0 same)) in
      ((t ∷ [], inl refl, ap (λ x. x ∷ []) o), tt)
  contained (primitive_type info p l s d) (group_type info' fields') h =
      let (b, e, h1) =
        bind_ok (basic_match (primitive_type info p l s d) (group_type info' fields'))
          (λ b. ok false) h in
      cc h1
  contained (group_type info fields) (primitive_type info' p' l' s' d') h =
      let (b, e, h1) =
        bind_ok (basic_match (group_type info fields) (primitive_type info' p' l' s' d'))
          (λ b. ok false) h in
      cc h1
  contained (group_type info fields) (group_type info' fields') h =
      let t = group_type info fields in
      let u = group_type info' fields' in
      let (basic, e, h1) =
        bind_ok (basic_match t u)
          (λ b. if b then check_fields (field_map fields []) fields' else ok false) h in
      let (matched, h2) = if_ok basic (check_fields (field_map fields []) fields') h1 in
      HasOutline-group t u (chains_of fields) (chains_of fields')
        (basic_match-outline t u (e ∙ ap ok matched) refl) (contained_fields fields fields' h2)

  contained_fields :
      (fields : Fields) (fields' : Fields)
      → check_fields (field_map fields []) fields' ≡ ok true
      → All (HasOutline (chains_of fields)) (chains_of fields')
  contained_fields fields nil h = tt
  contained_fields fields (cons f fs) h =
      let o = find_field (name_of f) (field_map fields []) in
      let (found, e, h1) =
        bind_ok (elim o as (λ x. Outcome Bool) [ none ↦ ok false | some t ↦ check_contains t f ])
          (λ b. if b then check_fields (field_map fields []) fs else ok false) h in
      let (accepted, h2) = if_ok found (check_fields (field_map fields []) fs) h1 in
      let (t, there, matched) = found_field o f (e ∙ ap ok accepted) in
      let inside : InFields t fields = in_fields fields (name_of f) t there in
      All-append (HasOutline (chains_of fields)) (chains f) (chains_of fs)
        (HasOutline-fields t fields (chains f) inside (contained t f matched))
        (contained_fields fields fs h2)

-- A type that `check_contains` accepts has, for each way down to one of its leaves, a way down in
-- the type that it is checked against with the same names and repetitions, one by one, and the same
-- physical type at its end: the columns of a projection are columns of the schema, at the same
-- levels.
pub check_contains_lem :
    (self sub_type : SchemaType)
    → check_contains self sub_type ≡ ok true
    → All (HasOutline (chains self)) (chains sub_type)
check_contains_lem = contained
