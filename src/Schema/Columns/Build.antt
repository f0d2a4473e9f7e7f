-- ===== src/Schema/Columns/Build.antt =====
-- src/schema/types.rs: `build_tree` pushes the described columns, each under the field it is below.
use Prim.Native.String.{String}
use parquet_rs.Basic.{required, optional, repeated}
use parquet_rs.Prelude.{
  assert, unwrap, ◌>>◌, ◌>>=◌, ltb, ◌&&◌, take_append_exact, lt→ltb, leb, if◌then◌else◌, ◌-◌,
  map-map, subst, map_congr, map-append, ap₂, length-map, length-append, ℕ, ◌+◌, ◌<◌, ◌≤◌, ◌^◌, ◌≡◌,
  refl, ap, sym, ◌∙◌, List, [], ◌∷◌, ◌++◌, map, append_assoc, append_nil, some, arith, ok, length,
}
use parquet_rs.Schema.Types.{
  is_some, SchemaType, primitive_type, group_type, Fields, nil, cons, name_of,
}
use parquet_rs.Schema.Columns.{
  Repetition, Tree, build_tree, build_fields, lookup, remove_last, push_leaf, next_def_level,
  next_rep_level,
}
use parquet_rs.Schema.Columns.Chains.{
  is_repeated, is_defined, repetition_in, chains, chains_of, depth, depth_of, HasRepetitions,
  HaveRepetitions, describe, describe-cons,
}

-- The columns `n` from `i` on are under `base`, and no others have changed.
abbrev pub IsBased : SchemaType → ℕ → ℕ → List (ℕ × SchemaType) → List (ℕ × SchemaType) → Type 0
IsBased base i n old new =
    (j : ℕ) → lookup j new ≡ (if leb i j && ltb j (i + n) then some base else lookup j old)

-- What the columns of some ways down add to the state.
pub record Built (root base : SchemaType) (rep_level def_level : ℕ) (t : SchemaType)
    (cs : List (List SchemaType)) (s s' : Tree) : Type 0 where
  pub leaves : s'.leaves ≡ s.leaves ++ map (describe root s.path_so_far rep_level def_level t) cs
  pub based : IsBased base (length s.leaves) (length cs) s.leaf_to_base s'.leaf_to_base

IsBased-trans :
    (base : SchemaType) (i m n : ℕ) (a b c : List (ℕ × SchemaType))
    → IsBased base i m a b
    → IsBased base (i + m) n b c
    → IsBased base i (m + n) a c
IsBased-trans base i m n a b c first second j = ground (arith, first j, second j)

next_def_level_lem :
    (r : Repetition) (level : ℕ)
    → level + 1 < 2 ^ 16
    → next_def_level r level ≡ level + is_defined (some r)
unfolding next_def_level
next_def_level_lem required level few = omega arith
next_def_level_lem optional level few = omega arith
next_def_level_lem repeated level few = omega arith

next_rep_level_lem :
    (r : Repetition) (level : ℕ)
    → level + 1 < 2 ^ 16
    → next_rep_level r level ≡ level + is_repeated (some r)
unfolding next_rep_level
next_rep_level_lem required level few = omega arith
next_rep_level_lem optional level few = omega arith
next_rep_level_lem repeated level few = omega arith

next_levels-le :
    (r : Repetition) (level : ℕ)
    → level + 1 < 2 ^ 16
    → (next_def_level r level ≤ level + 1) × (next_rep_level r level ≤ level + 1)
next_levels-le required level few = (
  omega (arith, next_def_level_lem required level few),
  omega (arith, next_rep_level_lem required level few),
)
next_levels-le optional level few = (
  omega (arith, next_def_level_lem optional level few),
  omega (arith, next_rep_level_lem optional level few),
)
next_levels-le repeated level few = (
  omega (arith, next_def_level_lem repeated level few),
  omega (arith, next_rep_level_lem repeated level few),
)

remove_last_lem : (path : List String) (n : String) → remove_last (path ++ n ∷ []) ≡ ok path
unfolding remove_last
remove_last_lem path n =
    let size : length (path ++ n ∷ []) ≡ length path + 1 = length-append path (n ∷ []) in
    let less : length (path ++ n ∷ []) - 1 ≡ length path = omega (arith, size) in
    rw
      (
        lt→ltb 0 (length (path ++ n ∷ [])) (omega (arith, size)),
        less,
        take_append_exact path (n ∷ []),
      )
      refl

-- One leaf.
push_leaf_lem :
    (t root base : SchemaType) (r : Repetition) (rep_level def_level : ℕ) (s : Tree)
    (u : SchemaType)
    → repetition_in t ≡ some r
    → rep_level + 1 < 2 ^ 16
    → def_level + 1 < 2 ^ 16
    → Built root base rep_level def_level u ((t ∷ []) ∷ []) s (
        push_leaf t root base
          (next_rep_level r rep_level)
          (next_def_level r def_level)
          (record s { path_so_far = s.path_so_far ++ name_of t ∷ [] }))
unfolding push_leaf
push_leaf_lem t root base r rep_level def_level s u given few_rep few_def =
    let d : next_def_level r def_level ≡ def_level + (is_defined (repetition_in t) + 0) =
      omega (arith, next_def_level_lem r def_level few_def, ap is_defined given) in
    let p : next_rep_level r rep_level ≡ rep_level + (is_repeated (repetition_in t) + 0) =
      omega (arith, next_rep_level_lem r rep_level few_rep, ap is_repeated given) in
    record { leaves = rw (d, p) refl; based = λ j. ground arith }

-- A group's columns are those of its fields, one step further down.
group_lem :
    (t root base : SchemaType) (r : Repetition) (rep_level def_level : ℕ) (s s' : Tree)
    (u : SchemaType) (cs : List (List SchemaType))
    → repetition_in t ≡ some r
    → rep_level + 1 < 2 ^ 16
    → def_level + 1 < 2 ^ 16
    → Built root base
        (next_rep_level r rep_level)
        (next_def_level r def_level)
        t
        cs
        (record s { path_so_far = s.path_so_far ++ name_of t ∷ [] })
        s'
    → Built root base rep_level def_level u (map (λ c. t ∷ c) cs) s s'
group_lem t root base r rep_level def_level s s' u cs given few_rep few_def built =
    let d : next_def_level r def_level ≡ def_level + is_defined (repetition_in t) =
      omega (arith, next_def_level_lem r def_level few_def, ap is_defined given) in
    let p : next_rep_level r rep_level ≡ rep_level + is_repeated (repetition_in t) =
      omega (arith, next_rep_level_lem r rep_level few_rep, ap is_repeated given) in
    let below = s.path_so_far ++ name_of t ∷ [] in
    let one : (c : List SchemaType)
        → describe root below (next_rep_level r rep_level) (next_def_level r def_level) t c
          ≡ describe root s.path_so_far rep_level def_level u (t ∷ c) =
      λ c.
        ap₂ (λ a b. describe root below a b t c) p d
        ∙ describe-cons root s.path_so_far rep_level def_level u t c in
    record {
      leaves =
          built.leaves
          ∙ ap (λ l. s.leaves ++ l)
              (map_congr _ _ one cs
                ∙ sym
                    (map-map (describe root s.path_so_far rep_level def_level u) (λ c. t ∷ c) cs));
      based =
          subst (λ (n : ℕ). IsBased base (length s.leaves) n s.leaf_to_base s'.leaf_to_base)
            (sym (length-map (λ c. t ∷ c) cs)) built.based;
    }

-- The columns of a field, then those of the fields after it.
Built-append :
    (root base : SchemaType) (rep_level def_level : ℕ) (t : SchemaType)
    (cs ds : List (List SchemaType)) (s s1 s' : Tree)
    → Built root base rep_level def_level t cs s s1
    → Built root base rep_level def_level t ds (record s1 { path_so_far = s.path_so_far }) s'
    → Built root base rep_level def_level t (cs ++ ds) s s'
Built-append root base rep_level def_level t cs ds s s1 s' first second =
    let f = describe root s.path_so_far rep_level def_level t in
    let size : length s1.leaves ≡ length s.leaves + length cs =
      ap length first.leaves
      ∙ length-append s.leaves (map f cs)
      ∙ ap (λ (k : ℕ). length s.leaves + k) (length-map f cs) in
    record {
      leaves =
          second.leaves
          ∙ ap (λ l. l ++ map f ds) first.leaves
          ∙ append_assoc s.leaves (map f cs) (map f ds)
          ∙ ap (λ l. s.leaves ++ l) (sym (map-append f cs ds));
      based =
          subst (λ (n : ℕ). IsBased base (length s.leaves) n s.leaf_to_base s'.leaf_to_base)
            (sym (length-append cs ds))
            (IsBased-trans base (length s.leaves) (length cs) (length ds) s.leaf_to_base
              s1.leaf_to_base s'.leaf_to_base first.based
              (subst (λ (i : ℕ). IsBased base i (length ds) s1.leaf_to_base s'.leaf_to_base) size
                second.based));
    }

mutual
  unfolding build_tree name_of repetition_in

  pub build_tree_lem :
      (t root base : SchemaType) (rep_level def_level : ℕ) (s : Tree) (u : SchemaType)
      → HasRepetitions t
      → rep_level + depth t < 2 ^ 16
      → def_level + depth t < 2 ^ 16
      → (s' : Tree) × (build_tree t root base rep_level def_level s ≡ ok s')
        × Built root base rep_level def_level u (chains t) s s'
        × (s'.path_so_far ≡ s.path_so_far ++ name_of t ∷ [])
  build_tree_lem (primitive_type info p l sc d) root base rep_level def_level s u (r, given) few_rep
        few_def =
      let t = primitive_type info p l sc d in
      (
        push_leaf t root base (next_rep_level r rep_level) (next_def_level r def_level)
            (record s { path_so_far = s.path_so_far ++ name_of t ∷ [] }),
        rw (given) refl,
        push_leaf_lem t root base r rep_level def_level s u given few_rep few_def,
        refl,
      )
  build_tree_lem (group_type info fields) root base rep_level def_level s u (r, given, each) few_rep
        few_def =
      let t = group_type info fields in
      let s1 : Tree = record s { path_so_far = s.path_so_far ++ name_of t ∷ [] } in
      let (s', e, built, path) =
        build_fields_lem fields root base (next_rep_level r rep_level) (next_def_level r def_level)
          s1 t each
          (omega (arith, (next_levels-le r rep_level (omega (arith, few_rep))).1, few_rep))
          (omega (arith, (next_levels-le r def_level (omega (arith, few_def))).0, few_def)) in
      (
        s',
        ap
              (λ o.
                assert (is_some o)
                >> (unwrap o >>= λ x.
                    build_fields fields root base (next_rep_level x rep_level)
                      (next_def_level x def_level) s1))
              given
            ∙ e,
        group_lem t root base r rep_level def_level s s' u (chains_of fields) given
            (omega (arith, few_rep)) (omega (arith, few_def)) built,
        path,
      )

  build_fields_lem :
      (fields : Fields) (root base : SchemaType) (rep_level def_level : ℕ) (s : Tree)
      (u : SchemaType)
      → HaveRepetitions fields
      → rep_level + depth_of fields < 2 ^ 16
      → def_level + depth_of fields < 2 ^ 16
      → (s' : Tree) × (build_fields fields root base rep_level def_level s ≡ ok s')
        × Built root base rep_level def_level u (chains_of fields) s s'
        × (s'.path_so_far ≡ s.path_so_far)
  build_fields_lem nil root base rep_level def_level s u each few_rep few_def =
      (s, refl, record { leaves = sym (append_nil s.leaves); based = λ j. ground arith }, refl)
  build_fields_lem (cons f fs) root base rep_level def_level s u (h, each) few_rep few_def =
      let (s1, e1, first, path1) =
        build_tree_lem f root base rep_level def_level s u h (omega (arith, few_rep))
          (omega (arith, few_def)) in
      let s2 : Tree = record s1 { path_so_far = s.path_so_far } in
      let (s', e2, second, path2) =
        build_fields_lem fs root base rep_level def_level s2 u each (omega (arith, few_rep))
          (omega (arith, few_def)) in
      let back : remove_last s1.path_so_far ≡ ok s.path_so_far =
        ap remove_last path1 ∙ remove_last_lem s.path_so_far (name_of f) in
      (
        s',
        rw (e1, back) e2,
        Built-append root base rep_level def_level u (chains f) (chains_of fs) s s1 s' first second,
        path2,
      )
