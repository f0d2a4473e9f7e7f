-- ===== src/Schema/Thrift/Reading.antt =====
-- src/schema/types.rs: `from_thrift_helper` on the elements of a type.
use parquet_rs.Prelude.{
  ℕ, zero, suc, ◌+◌, ◌<◌, ◌≤◌, ◌≡◌, refl, ap, sym, ◌∙◌, subst, List, [], ◌∷◌, ◌++◌, append_assoc,
  get_elem?-append, length, length-append, Bool, false, some, Outcome, ok, ℤ, to_i32, le→ltb, arith,
  ◌==◌,
}
use parquet_rs.Basic.{PhysicalType}
use parquet_rs.Schema.Types.{
  BasicTypeInfo, SchemaType, primitive_type, group_type, Fields, nil, cons, num_fields,
}
use parquet_rs.Schema.Thrift.{
  SchemaElement, read_children, read_element, element_to_group, from_thrift_helper,
}
use parquet_rs.Schema.Thrift.Elements.{
  primitive_of, group_of, element_to_primitive_lem, element_to_group_lem, read_element-group,
  to_i32_small,
}
use parquet_rs.Schema.Thrift.Messages.{
  Children, Leaf, IsField, AreFields, elements_of, elements_of_fields, leaf_elements_lem,
}

module _ (max_precision : ℤ → ℤ) where
  -- The element at an index is the one that is read, with what `read_element` makes of it.
  pub read_at :
      (fuel : ℕ) (pre post : List SchemaElement) (e : SchemaElement)
      (result : Outcome (ℕ × SchemaType))
      → read_element max_precision
          (from_thrift_helper max_precision fuel (pre ++ e ∷ post))
          (length pre)
          e
          e.num_children
        ≡ result
      → from_thrift_helper max_precision (suc fuel) (pre ++ e ∷ post) (length pre) ≡ result
  read_at fuel pre post e result h =
      unfold from_thrift_helper in
      let few : length pre ≤ length (pre ++ e ∷ post) =
        omega (arith, length-append pre (e ∷ post)) in
      rw (le→ltb (length (pre ++ e ∷ post)) (length pre) few, get_elem?-append pre e post) h

  read_primitive :
      (info : BasicTypeInfo) (p : PhysicalType) (l s d : ℤ) (h : Leaf max_precision info p l s d)
      → (fuel : ℕ) (pre post : List SchemaElement)
      → from_thrift_helper max_precision
          (suc fuel)
          (pre ++ primitive_of info h.repetition p l s d ∷ post)
          (length pre)
        ≡ ok (length pre + 1, primitive_type info p l s d)
  read_primitive info p l s d h fuel pre post =
      read_at fuel pre post (primitive_of info h.repetition p l s d) _ (
        unfold read_element in
        rw
          (
            element_to_primitive_lem max_precision info h.repetition p l s d h.length_low
                h.scale_low h.precision_low,
            h.built,
          )
          refl)

  -- The rest of the reading of a group, once its children are read.
  pub read_group :
      (root : Bool) (info : BasicTypeInfo) (fields : Fields) (fuel : ℕ)
      (pre post : List SchemaElement) (end : ℕ)
      → Children fields
      → (length pre == 0) ≡ root
      → element_to_group root (group_of info (to_i32 (num_fields fields))) fields
        ≡ ok (group_type info fields)
      → read_children
          (from_thrift_helper max_precision fuel
            (pre ++ group_of info (to_i32 (num_fields fields)) ∷ post))
          (num_fields fields)
          (length pre + 1)
        ≡ ok (end, fields)
      → from_thrift_helper max_precision
          (suc fuel)
          (pre ++ group_of info (to_i32 (num_fields fields)) ∷ post)
          (length pre)
        ≡ ok (end, group_type info fields)
  read_group root info fields fuel pre post end children place made read =
      let g = group_of info (to_i32 (num_fields fields)) in
      let read_child = from_thrift_helper max_precision fuel (pre ++ g ∷ post) in
      read_at fuel pre post g _ (
        subst
          (λ o.
            read_element max_precision read_child (length pre) g o
            ≡ ok (end, group_type info fields))
          (ap some (sym (to_i32_small (num_fields fields) children.fits)))
          (read_element-group max_precision read_child (length pre) g (num_fields fields) end fields
            (group_type info fields) children.some_child read
            (subst (λ b. element_to_group b g fields ≡ ok (group_type info fields)) (sym place)
              made)))

  mutual
    unfolding read_children

    pub read_field :
        (t : SchemaType) (fuel : ℕ) (pre post es : List SchemaElement)
        → IsField max_precision t
        → es ≡ pre ++ (elements_of t ++ post)
        → 0 < length pre
        → length (elements_of t) ≤ fuel
        → from_thrift_helper max_precision fuel es (length pre)
          ≡ ok (length pre + length (elements_of t), t)
    read_field (primitive_type info p l s d) zero pre post es h e inner enough =
        absurd (omega (arith, ap length (leaf_elements_lem max_precision info p l s d h), enough))
    read_field (primitive_type info p l s d) (suc fuel) pre post es h e inner enough =
        subst
          (λ els.
            es ≡ pre ++ (els ++ post)
            → from_thrift_helper max_precision (suc fuel) es (length pre)
              ≡ ok (length pre + length els, primitive_type info p l s d))
          (sym (leaf_elements_lem max_precision info p l s d h))
          (λ e'.
            subst
              (λ x.
                from_thrift_helper max_precision (suc fuel) x (length pre)
                ≡ ok (length pre + 1, primitive_type info p l s d))
              (sym e') (read_primitive info p l s d h fuel pre post))
          e
    read_field (group_type info fields) zero pre post es (r, given, children, each) e inner enough =
        absurd (omega (arith, enough))
    read_field (group_type info fields) (suc fuel) pre post es (r, given, children, each) e inner
          enough =
        let g = group_of info (to_i32 (num_fields fields)) in
        let below = elements_of_fields fields in
        let read =
          read_fields fields fuel (pre ++ g ∷ []) post (pre ++ g ∷ (below ++ post)) each
            (sym (append_assoc pre (g ∷ []) (below ++ post)))
            (omega (arith, length-append pre (g ∷ []))) (omega (arith, enough)) in
        let all : (length pre + 1) + length below ≡ length pre + suc (length below) = omega arith in
        let place : (length pre == 0) ≡ false = ground arith in
        subst
          (λ x.
            from_thrift_helper max_precision (suc fuel) x (length pre)
            ≡ ok (length pre + suc (length below), group_type info fields))
          (sym e)
          (read_group false info fields fuel pre (below ++ post) ((length pre + 1) + length below)
              children place (element_to_group_lem info (to_i32 (num_fields fields)) fields)
              (subst
                (λ (k : ℕ).
                  read_children (from_thrift_helper max_precision fuel (pre ++ g ∷ (below ++ post)))
                    (num_fields fields) k
                  ≡ ok (k + length below, fields))
                (length-append pre (g ∷ [])) read)
            ∙ ap (λ (k : ℕ). ok (k, group_type info fields)) all)

    pub read_fields :
        (fields : Fields) (fuel : ℕ) (pre post es : List SchemaElement)
        → AreFields max_precision fields
        → es ≡ pre ++ (elements_of_fields fields ++ post)
        → 0 < length pre
        → length (elements_of_fields fields) ≤ fuel
        → read_children (from_thrift_helper max_precision fuel es) (num_fields fields) (length pre)
          ≡ ok (length pre + length (elements_of_fields fields), fields)
    read_fields nil fuel pre post es each e inner enough =
        let all : length pre ≡ length pre + 0 = omega arith in ap (λ (k : ℕ). ok (k, nil)) all
    read_fields (cons f fs) fuel pre post es (h, each) e inner enough =
        let sum = length-append (elements_of f) (elements_of_fields fs) in
        let joined : es ≡ pre ++ (elements_of f ++ (elements_of_fields fs ++ post)) =
          e ∙ ap (λ l. pre ++ l) (append_assoc (elements_of f) (elements_of_fields fs) post) in
        let first =
          read_field f fuel pre (elements_of_fields fs ++ post) es h joined inner
            (omega (arith, sum, enough)) in
        let rest =
          read_fields fs fuel (pre ++ elements_of f) post es each
            (joined ∙ sym (append_assoc pre (elements_of f) (elements_of_fields fs ++ post)))
            (omega (arith, inner, length-append pre (elements_of f)))
            (omega (arith, sum, enough)) in
        let rest' =
          subst
            (λ (k : ℕ).
              read_children (from_thrift_helper max_precision fuel es) (num_fields fs) k
              ≡ ok (k + length (elements_of_fields fs), fs))
            (length-append pre (elements_of f)) rest in
        let all : (length pre + length (elements_of f)) + length (elements_of_fields fs)
            ≡ length pre + length (elements_of f ++ elements_of_fields fs) =
          omega (arith, sum) in
        rw (first, rest') (ap (λ (k : ℕ). ok (k, cons f fs)) all)
