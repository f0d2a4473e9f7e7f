-- ===== src/Schema/Thrift/Truncated.antt =====
-- src/schema/types.rs: `from_thrift` on a list of elements that stops too early.
use parquet_rs.Prelude.{
  take-append_high, take-append_low, get_elem?-beyond, ltb, pos, append_nil, take, panic, ℕ, ◌-◌,
  zero, suc, ◌+◌, ◌<◌, ◌≡◌, refl, ◌>>=◌, length-take, ap, sym, ◌∙◌, subst, List, [], ◌∷◌, ◌++◌,
  append_assoc, length, length-append, some, Outcome, ok, ℤ, to_i32, le→ltb, lt→ltb, ltb→lt, ltb→le,
  Bool-cases, inl, inr, arith, ◌==◌,
}
use parquet_rs.Schema.Types.{
  BasicTypeInfo, SchemaType, primitive_type, group_type, Fields, nil, cons, num_fields,
}
use parquet_rs.Schema.Thrift.{
  SchemaElement, read_children, read_element, element_to_group, from_thrift_helper,
}
use parquet_rs.Schema.Thrift.Elements.{group_of, to_i32_small}
use parquet_rs.Schema.Thrift.Messages.{
  Children, IsField, AreFields, elements_of, elements_of_fields, leaf_elements_lem,
}
use parquet_rs.Schema.Thrift.Reading.{read_at, read_field}
use parquet_rs.Schema.Thrift.{to_thrift, to_thrift_helper, from_thrift, read_nodes}
use parquet_rs.Schema.Thrift.Messages.{IsMessage, written_fields}
use parquet_rs.Schema.Thrift.Elements.{group_to_element_lem}

module _ (max_precision : ℤ → ℤ) where
  -- The test of the index lets the index of the end pass.
  at_end :
      (fuel : ℕ) (pre es : List SchemaElement)
      → es ≡ pre ++ []
      → from_thrift_helper max_precision (suc fuel) es (length pre) ≡ panic
  unfolding from_thrift_helper
  at_end fuel pre es e =
      let all : es ≡ pre = e ∙ append_nil pre in
      subst (λ l. from_thrift_helper max_precision (suc fuel) l (length pre) ≡ panic) (sym all)
        (rw
          (
            le→ltb (length pre) (length pre) (omega arith),
            get_elem?-beyond pre (length pre) (omega arith),
          )
          refl)

  read_element-panic :
      (read : ℕ → Outcome (ℕ × SchemaType)) (i : ℕ) (e : SchemaElement) (n : ℕ)
      → 0 < n
      → read_children read n (i + 1) ≡ panic
      → read_element max_precision read i e (some (pos n)) ≡ panic
  unfolding read_element
  read_element-panic read i e zero h panics = absurd (omega (arith, h))
  read_element-panic read i e (suc n) h panics =
      ap (λ o. o >>= λ (k, fs). element_to_group (i == 0) e fs >>= λ u. ok (k, u)) panics

  cut_group :
      (info : BasicTypeInfo) (fields : Fields) (fuel : ℕ) (pre post : List SchemaElement)
      → Children fields
      → read_children
          (from_thrift_helper max_precision fuel
            (pre ++ group_of info (to_i32 (num_fields fields)) ∷ post))
          (num_fields fields)
          (length pre + 1)
        ≡ panic
      → from_thrift_helper max_precision
          (suc fuel)
          (pre ++ group_of info (to_i32 (num_fields fields)) ∷ post)
          (length pre)
        ≡ panic
  cut_group info fields fuel pre post children panics =
      let g = group_of info (to_i32 (num_fields fields)) in
      let read_child = from_thrift_helper max_precision fuel (pre ++ g ∷ post) in
      read_at max_precision fuel pre post g panic (
        subst (λ o. read_element max_precision read_child (length pre) g o ≡ panic)
          (ap some (sym (to_i32_small (num_fields fields) children.fits)))
          (read_element-panic read_child (length pre) g (num_fields fields) children.some_child
            panics))

  mutual
    unfolding read_children

    cut_field :
        (t : SchemaType) (fuel k : ℕ) (pre es : List SchemaElement)
        → IsField max_precision t
        → es ≡ pre ++ take k (elements_of t)
        → 0 < length pre
        → k < length (elements_of t)
        → k < fuel
        → from_thrift_helper max_precision fuel es (length pre) ≡ panic
    cut_field t zero k pre es h e inner cut enough = absurd (omega (arith, enough))
    cut_field t (suc fuel) zero pre es h e inner cut enough = at_end fuel pre es e
    cut_field (primitive_type info p l s d) (suc fuel) (suc k) pre es h e inner cut enough =
        absurd (omega (arith, ap length (leaf_elements_lem max_precision info p l s d h), cut))
    cut_field (group_type info fields) (suc fuel) (suc k) pre es (r, given, children, each) e inner
          cut enough =
        let g = group_of info (to_i32 (num_fields fields)) in
        let post = take k (elements_of_fields fields) in
        subst (λ x. from_thrift_helper max_precision (suc fuel) x (length pre) ≡ panic) (sym e)
          (cut_group info fields fuel pre post children (
            subst
              (λ (i : ℕ).
                read_children (from_thrift_helper max_precision fuel (pre ++ g ∷ post))
                  (num_fields fields) i
                ≡ panic)
              (length-append pre (g ∷ []))
              (cut_fields fields fuel k (pre ++ g ∷ []) (pre ++ g ∷ post) each
                (sym (append_assoc pre (g ∷ []) post)) (omega (arith, length-append pre (g ∷ [])))
                (omega (arith, cut)) (omega (arith, enough)))))

    cut_fields :
        (fields : Fields) (fuel k : ℕ) (pre es : List SchemaElement)
        → AreFields max_precision fields
        → es ≡ pre ++ take k (elements_of_fields fields)
        → 0 < length pre
        → k < length (elements_of_fields fields)
        → k < fuel
        → read_children (from_thrift_helper max_precision fuel es) (num_fields fields) (length pre)
          ≡ panic
    cut_fields nil fuel k pre es each e inner cut enough = absurd (omega (arith, cut))
    cut_fields (cons f fs) fuel k pre es (h, each) e inner cut enough =
        let first = elements_of f in
        let others = elements_of_fields fs in
        let sum = length-append first others in
        elim (Bool-cases (ltb k (length first))) [
          | inl within ↦
              let few = ltb→lt k (length first) within in
              ap
                (λ o. o >>= λ (next, t).
                  read_children (from_thrift_helper max_precision fuel es) (num_fields fs) next
                  >>= λ (end, ts). ok (end, cons t ts))
                (cut_field f fuel k pre es h
                  (e ∙ ap (λ l. pre ++ l) (take-append_low k first others (omega (arith, few))))
                  inner few enough)
          | inr past ↦
              let many = ltb→le k (length first) past in
              let post = take (k - length first) others in
              let joined : es ≡ pre ++ (first ++ post) =
                e ∙ ap (λ l. pre ++ l) (take-append_high k first others many) in
              let rest =
                cut_fields fs fuel (k - length first) (pre ++ first) es each
                  (joined ∙ sym (append_assoc pre first post))
                  (omega (arith, inner, length-append pre first)) (omega (arith, cut, sum, many))
                  (omega (arith, many, enough)) in
              rw
                (read_field max_precision f fuel pre post es h joined inner
                  (omega (arith, many, enough)))
                (ap (λ o. o >>= λ (end, ts). ok (end, cons f ts))
                  (subst
                    (λ (i : ℕ).
                      read_children (from_thrift_helper max_precision fuel es) (num_fields fs) i
                      ≡ panic)
                    (length-append pre first) rest))
        ]

  from_thrift_panic :
      (e : SchemaElement) (es : List SchemaElement)
      → from_thrift_helper max_precision (suc (length (e ∷ es))) (e ∷ es) 0 ≡ panic
      → from_thrift max_precision (e ∷ es) ≡ panic
  from_thrift_panic e es h =
      unfold from_thrift read_nodes in rw (lt→ltb 0 (length (e ∷ es)) (omega arith), h) refl

  all_written :
      (info : BasicTypeInfo) (fields : Fields) (es : List SchemaElement)
      → AreFields max_precision fields
      → to_thrift (group_type info fields) ≡ ok es
      → es ≡ group_of info (to_i32 (num_fields fields)) ∷ elements_of_fields fields
  unfolding to_thrift to_thrift_helper
  all_written info fields es each w =
      let g = group_of info (to_i32 (num_fields fields)) in
      let made = group_to_element_lem info (num_fields fields) in
      let all = written_fields max_precision fields (g ∷ []) each in
      let full : to_thrift (group_type info fields) ≡ ok (g ∷ elements_of_fields fields) =
        rw (made, all) refl in
      let both : ok es ≡ ok (g ∷ elements_of_fields fields) = sym w ∙ full in cc both

  -- The elements of a message type (as in the round trip) with some, but not all, cut off at the
  -- end make `from_thrift` panic: where a group still expects a field, the index is the number of
  -- elements, which the test for an index out of bounds lets pass.
  pub from_thrift-take :
      (schema : SchemaType) (es : List SchemaElement) (k : ℕ)
      → IsMessage max_precision schema
      → to_thrift schema ≡ ok es
      → 0 < k
      → k < length es
      → from_thrift max_precision (take k es) ≡ panic
  from_thrift-take (primitive_type info p l s d) es k h w positive cut = absurd h
  from_thrift-take (group_type info fields) es zero h w positive cut =
      absurd (omega (arith, positive))
  from_thrift-take (group_type info fields) es (suc k) (root, children, each) w positive cut =
      let g = group_of info (to_i32 (num_fields fields)) in
      let below = elements_of_fields fields in
      let whole : es ≡ g ∷ below = all_written info fields es each w in
      let few : k < length below = omega (arith, cut, ap length whole) in
      let kept : length (take k below) ≡ k = omega (arith, length-take k below, few) in
      subst (λ l. from_thrift max_precision (take (suc k) l) ≡ panic) (sym whole)
        (from_thrift_panic g (take k below) (
          cut_group info fields (suc (length (take k below))) [] (take k below) children (
            cut_fields fields (suc (length (take k below))) k (g ∷ []) (g ∷ take k below) each refl
              (omega arith) few (omega (arith, kept)))))
