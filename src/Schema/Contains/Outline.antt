-- ===== src/Schema/Contains/Outline.antt =====
-- src/schema/types.rs: what `check_contains` compares of two types, and of two ways down to a leaf.
use Prim.Native.String.{String}
use text.Mathlib.Text.{◌==◌}
use text.Mathlib.TextEquality.{eq_iff}
use parquet_rs.Prelude.{
  ◌>>=◌, Option-cases, unwrap, subst, ◌≡◌, refl, ap, sym, ◌∙◌, ◌⊎◌, inl, inr, List, [], ◌∷◌, ◌++◌,
  map, Option, none, some, ok, Bool, true, false, Bool-cases, not, ◌&&◌, if◌then◌else◌, arith,
}
use parquet_rs.Basic.{PhysicalType, Repetition, repetition_eq}
use parquet_rs.Basic.Equality.{repetition_eq_iff}
use parquet_rs.Schema.Types.{
  is_some, SchemaType, primitive_type, group_type, Fields, nil, cons, name_of, is_schema,
}
use parquet_rs.Schema.Contains.{basic_match, field_map, find_field}
use parquet_rs.Schema.Columns.Chains.{chains, chains_of, repetition_in}

-- The name, the repetition and, of a primitive type, the physical type.
pub record Outline : Type 0 where
  pub name : String
  pub repetition : Option Repetition
  pub physical_type : Option PhysicalType

abbrev pub physical_in : SchemaType → Option PhysicalType
physical_in (primitive_type info p l s d) = some p
physical_in (group_type info fields) = none

unfoldable pub outline : SchemaType → Outline
unfolding name_of repetition_in
outline t = record { name = name_of t; repetition = repetition_in t; physical_type = physical_in t }

-- A list is one of some others.
abbrev pub Among : List SchemaType → List (List SchemaType) → Type 0
Among c [] = ⊥
Among c (d ∷ ds) = (c ≡ d) ⊎ Among c ds

-- Among some ways down there is one whose types have these outlines.
abbrev pub HasOutline : List (List SchemaType) → List SchemaType → Type 0
HasOutline cs c = (d : List SchemaType) × Among d cs × (map outline d ≡ map outline c)

abbrev pub InFields : SchemaType → Fields → Type 0
InFields t nil = ⊥
InFields t (cons f fs) = (t ≡ f) ⊎ InFields t fs

Among-append_left :
    (c : List SchemaType) (cs ds : List (List SchemaType)) → Among c cs → Among c (cs ++ ds)
Among-append_left c [] ds h = absurd h
Among-append_left c (d ∷ cs) ds (inl e) = inl e
Among-append_left c (d ∷ cs) ds (inr h) = inr (Among-append_left c cs ds h)

Among-append_right :
    (c : List SchemaType) (cs ds : List (List SchemaType)) → Among c ds → Among c (cs ++ ds)
Among-append_right c [] ds h = h
Among-append_right c (d ∷ cs) ds h = inr (Among-append_right c cs ds h)

pub Among-map :
    (t : SchemaType) (c : List SchemaType) (cs : List (List SchemaType))
    → Among c cs
    → Among (t ∷ c) (map (λ d. t ∷ d) cs)
Among-map t c [] h = absurd h
Among-map t c (d ∷ cs) (inl e) = inl (ap (λ l. t ∷ l) e)
Among-map t c (d ∷ cs) (inr h) = inr (Among-map t c cs h)

pub Among-chains_of :
    (t : SchemaType) (fields : Fields) (c : List SchemaType)
    → InFields t fields
    → Among c (chains t)
    → Among c (chains_of fields)
Among-chains_of t nil c h among = absurd h
Among-chains_of t (cons f fs) c (inl e) among =
    Among-append_left c (chains f) (chains_of fs) (subst (λ u. Among c (chains u)) e among)
Among-chains_of t (cons f fs) c (inr h) among =
    Among-append_right c (chains f) (chains_of fs) (Among-chains_of t fs c h among)

-- What the map finds is one of the fields.
pub find-field_map :
    (fields : Fields) (m : List (String × SchemaType)) (k : String) (t : SchemaType)
    → find_field k (field_map fields m) ≡ some t
    → InFields t fields ⊎ (find_field k m ≡ some t)
unfolding field_map find_field
find-field_map nil m k t h = inr h
find-field_map (cons f fs) m k t h = elim (find-field_map fs ((name_of f, f) ∷ m) k t h) [
  | inl later ↦ inl (inr later)
  | inr here ↦ elim (Bool-cases (name_of f == k)) [
    | inl same ↦ let e : f ≡ t = ground (arith, here, same) in inl (inl (sym e))
    | inr other ↦ let e : find_field k m ≡ some t = ground (arith, here, other) in inr e
  ]
]

basic_match_parts :
    (same schema schema' : Bool) (o o' : Option Repetition)
    → (if same
        then if schema && schema'
          then ok true
          else if not schema && not schema'
          then (unwrap o >>= λ r. unwrap o' >>= λ s. ok (repetition_eq r s))
          else ok false
        else ok false)
      ≡ ok true
    → (same ≡ true) × (((schema ≡ true) × (schema' ≡ true)) ⊎ (o ≡ o'))
basic_match_parts false schema schema' o o' h = cc h
basic_match_parts true true true o o' h = (refl, inl (refl, refl))
basic_match_parts true true false o o' h = cc h
basic_match_parts true false true o o' h = cc h
basic_match_parts true false false none o' h = cc h
basic_match_parts true false false (some r) none h = cc h
basic_match_parts true false false (some r) (some s) h =
    let e : repetition_eq r s ≡ true = cc h in (refl, inr (ap some ((repetition_eq_iff r s).0 e)))

false_not_true : false ≡ true → ⊥
false_not_true h = cc h

message_repetition : (t : SchemaType) → is_schema t ≡ true → repetition_in t ≡ none
unfolding is_schema repetition_in
message_repetition (primitive_type info p l s d) h = cc h
message_repetition (group_type info fields) h = elim (Option-cases info.repetition) [
  | inl e ↦ e
  | inr (r, e) ↦ absurd (false_not_true (ap (λ o. not (is_some o)) (sym e) ∙ h))
]

-- Types whose `basic_match` succeeds have the same name and repetition.
basic_match_lem :
    (t u : SchemaType)
    → basic_match t u ≡ ok true
    → (name_of t ≡ name_of u) × (repetition_in t ≡ repetition_in u)
unfolding basic_match repetition_in
basic_match_lem t u h =
    let (same, rest) =
      basic_match_parts (name_of t == name_of u) (is_schema t) (is_schema u) (repetition_in t)
        (repetition_in u) h in
    (
      (eq_iff (name_of t) (name_of u)).0 same,
      elim rest [
        | inl (message, message') ↦
            message_repetition t message ∙ sym (message_repetition u message')
        | inr e ↦ e
      ],
    )

pub basic_match-outline :
    (t u : SchemaType)
    → basic_match t u ≡ ok true
    → physical_in t ≡ physical_in u
    → outline t ≡ outline u
basic_match-outline t u h p = let (n, r) = basic_match_lem t u h in unfold outline in cc (n, r, p)
