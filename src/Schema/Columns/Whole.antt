-- ===== src/Schema/Columns/Whole.antt =====
-- src/schema/types.rs: `SchemaDescriptor::new` of a whole schema.
use parquet_rs.Prelude.{
  ap₂, ℕ, zero, suc, ◌+◌, ◌<◌, ◌^◌, ◌≡◌, refl, ap, sym, ◌∙◌, List, [], ◌∷◌, ◌++◌, map, map-map,
  map-append, append_assoc, append_nil, length, length-append, length-map, get_elem?,
  get_elem?-beyond, replicate, none, some, ok, unwrap, leb, ltb, ltb→le, Bool-cases, inl, inr, ◌&&◌,
  if◌then◌else◌, arith, assert, ◌>>◌,
}
use parquet_rs.Schema.Types.{
  BasicTypeInfo, SchemaType, primitive_type, group_type, Fields, nil, cons,
}
use parquet_rs.Schema.Columns.{
  ColumnDescriptor, SchemaDescriptor, build_roots, new_descriptor, get_column_root, lookup,
}
use parquet_rs.Schema.Columns.Chains.{chains, chains_of, depth_of, HaveRepetitions, describe}
use parquet_rs.Schema.Columns.Build.{build_tree_lem}

-- The field of the root that a way down starts with.
abbrev pub first_of : SchemaType → List SchemaType → SchemaType
first_of t [] = t
first_of t (u ∷ c) = u

map-const :
    (cs : List (List SchemaType)) (t : SchemaType) → map (λ c. t) cs ≡ replicate (length cs) t
map-const [] t = refl
map-const (c ∷ cs) t = ap (λ l. t ∷ l) (map-const cs t)

chains_start : (t u : SchemaType) → map (first_of u) (chains t) ≡ replicate (length (chains t)) t
chains_start (primitive_type info p l s d) u = refl
chains_start (group_type info fields) u =
    let t = group_type info fields in
    map-map (first_of u) (λ c. t ∷ c) (chains_of fields)
    ∙ map-const (chains_of fields) t
    ∙ ap (λ (k : ℕ). replicate k t) (sym (length-map (λ c. t ∷ c) (chains_of fields)))

get_elem?-replicate :
    (n j : ℕ) (t : SchemaType) → get_elem? (replicate n t) j ≡ (if ltb j n then some t else none)
get_elem?-replicate zero j t = ground arith
get_elem?-replicate (suc n) zero t = ground arith
get_elem?-replicate (suc n) (suc j) t = ground (arith, get_elem?-replicate n j t)

get_elem?-append-replicate :
    (bs : List SchemaType) (n j : ℕ) (t : SchemaType)
    → get_elem? (bs ++ replicate n t) j
      ≡ (if leb (length bs) j && ltb j (length bs + n) then some t else get_elem? bs j)
get_elem?-append-replicate [] n j t = ground (arith, get_elem?-replicate n j t)
get_elem?-append-replicate (b ∷ bs) n zero t = ground arith
get_elem?-append-replicate (b ∷ bs) n (suc j) t =
    ground (arith, get_elem?-append-replicate bs n j t)

-- The loop over the root's fields, after the columns `leaves`, whose fields are `bases`.
build_roots_lem :
    (fields : Fields) (tp : SchemaType) (leaves : List ColumnDescriptor)
    (entries : List (ℕ × SchemaType)) (bases : List SchemaType)
    → HaveRepetitions fields
    → depth_of fields < 2 ^ 16
    → length leaves ≡ length bases
    → ((j : ℕ) → lookup j entries ≡ get_elem? bases j)
    → (d : SchemaDescriptor) × (build_roots fields tp leaves entries ≡ ok d)
      × (d.leaves ≡ leaves ++ map (describe tp [] 0 0 tp) (chains_of fields))
      × ((j : ℕ)
          → lookup j d.leaf_to_base ≡ get_elem? (bases ++ map (first_of tp) (chains_of fields)) j)
unfolding build_roots
build_roots_lem nil tp leaves entries bases each few sizes based = (
  _,
  refl,
  sym (append_nil leaves),
  λ j. based j ∙ ap (λ l. get_elem? l j) (sym (append_nil bases)),
)
build_roots_lem (cons f fs) tp leaves entries bases (h, each) few sizes based =
    let (s, e, built, path) =
      build_tree_lem f tp f 0 0
        (record { leaves = leaves; leaf_to_base = entries; path_so_far = [] }) tp h
        (omega (arith, few)) (omega (arith, few)) in
    let g = describe tp [] 0 0 tp in
    let starts = map (first_of tp) (chains f) in
    let sizes' : length s.leaves ≡ length (bases ++ starts) = omega (
      arith,
      ap length built.leaves,
      length-append leaves (map g (chains f)),
      length-map g (chains f),
      sizes,
      length-append bases starts,
      length-map (first_of tp) (chains f),
    ) in
    let based' : (j : ℕ) → lookup j s.leaf_to_base ≡ get_elem? (bases ++ starts) j = λ j.
      built.based j
      ∙ ap₂ (λ (k : ℕ) o. if leb k j && ltb j (k + length (chains f)) then some f else o) sizes
          (based j)
      ∙ sym (get_elem?-append-replicate bases (length (chains f)) j f)
      ∙ ap (λ l. get_elem? (bases ++ l) j) (sym (chains_start f tp)) in
    let (d, e2, all, roots) =
      build_roots_lem fs tp s.leaves s.leaf_to_base (bases ++ starts) each (omega (arith, few))
        sizes' based' in
    (
      d,
      rw (e) e2,
      all
          ∙ ap (λ l. l ++ map g (chains_of fs)) built.leaves
          ∙ append_assoc leaves (map g (chains f)) (map g (chains_of fs))
          ∙ ap (λ l. leaves ++ l) (sym (map-append g (chains f) (chains_of fs))),
      λ j.
          roots j
          ∙ ap (λ l. get_elem? l j)
              (append_assoc bases starts (map (first_of tp) (chains_of fs))
                ∙ ap (λ l. bases ++ l) (sym (map-append (first_of tp) (chains f) (chains_of fs)))),
    )

-- The test of the index changes nothing, as a column beyond the last has no entry.
root_checked :
    (n i : ℕ) (entries : List (ℕ × SchemaType)) (bases : List SchemaType)
    → n ≡ length bases
    → lookup i entries ≡ get_elem? bases i
    → (assert (ltb i n) >> unwrap (lookup i entries)) ≡ unwrap (get_elem? bases i)
root_checked n i entries bases size found = elim (Bool-cases (ltb i n)) [
  | inl inside ↦ rw (inside, found) refl
  | inr outside ↦
      rw (outside, get_elem?-beyond bases i (omega (arith, ltb→le i n outside, size))) refl
]

-- A schema, each of whose types below the root has a repetition and which is less than 2 ^ 15 deep,
-- has one column for each way from the root down to a primitive type, in depth-first order: with the
-- path of its names, with as many definition levels as it has types that are not REQUIRED, and as
-- many repetition levels as it has REPEATED ones. `get_column_root` returns the way's first type, and
-- panics from the number of columns on.
pub new_descriptor_lem :
    (info : BasicTypeInfo) (fields : Fields)
    → HaveRepetitions fields
    → depth_of fields < 2 ^ 15
    → (d : SchemaDescriptor) × (new_descriptor (group_type info fields) ≡ ok d)
      × (d.leaves
          ≡ map
              (describe (group_type info fields) [] 0 0 (group_type info fields))
              (chains_of fields))
      × ((i : ℕ)
          → get_column_root d i
            ≡ unwrap (get_elem? (map (first_of (group_type info fields)) (chains_of fields)) i))
unfolding new_descriptor get_column_root
new_descriptor_lem info fields each few =
    let tp = group_type info fields in
    let (d, e, all, roots) =
      build_roots_lem fields tp [] [] [] each (omega (arith, few)) refl (λ j. refl) in
    (
      d,
      e,
      all,
      λ i.
          root_checked (length d.leaves) i d.leaf_to_base (map (first_of tp) (chains_of fields))
            (omega (
              arith,
              ap length all,
              length-map (describe tp [] 0 0 tp) (chains_of fields),
              length-map (first_of tp) (chains_of fields),
            ))
            (roots i),
    )
