-- ===== src/Schema/Thrift/Fuel.antt =====
-- src/schema/types.rs: the reading of elements comes to an end: its fuel is never used up.
use parquet_rs.Schema.Thrift.Forward.{Reader, IsForward, inside_of, from_thrift_helper-IsForward}
use parquet_rs.Schema.Thrift.Ending.{from_thrift_helper-Ends, read_nodes-Ends, from_thrift-Ends}
use parquet_rs.Prelude.{
  Ends-running, running, ℕ, zero, suc, ◌+◌, ◌<◌, ◌≤◌, ◌≡◌, refl, ap, ◌∙◌, List, [], ◌∷◌, length,
  get_elem?, Option, none, some, ok, reject, ◌>>=◌, ◌>>◌, unwrap, ℤ, pos, negsuc, ltb, le→ltb,
  arith, ◌==◌, bind_congr, if◌then◌else◌,
}
use parquet_rs.Schema.Types.{cons}
use parquet_rs.Schema.Thrift.{
  SchemaElement, element_to_group, read_children, read_element, from_thrift_helper, read_nodes,
  from_thrift,
}

-- Readers that agree from an index on read the same children from it.
read_children_agree :
    (read read' : Reader) (n i : ℕ)
    → IsForward read
    → ((j : ℕ) → i ≤ j → read j ≡ read' j)
    → read_children read n i ≡ read_children read' n i
unfolding read_children
read_children_agree read read' zero i forward same = refl
read_children_agree read read' (suc n) i forward same =
    bind_congr (read i) _ _ (λ (next, t) first.
      ap (λ o. o >>= λ (end, fs). ok (end, cons t fs))
        (read_children_agree read read' n next forward
          (λ j le. same j (omega (arith, le, forward i next t first)))))
    ∙ ap (λ o. o >>= λ (next, t). read_children read' n next >>= λ (end, fs). ok (end, cons t fs))
        (same i (omega arith))

module _ (max_precision : ℤ → ℤ) where
  read_element_agree :
      (read read' : Reader) (i : ℕ) (e : SchemaElement) (n : Option ℤ)
      → IsForward read
      → ((j : ℕ) → i + 1 ≤ j → read j ≡ read' j)
      → read_element max_precision read i e n ≡ read_element max_precision read' i e n
  unfolding read_element
  read_element_agree read read' i e none forward same = refl
  read_element_agree read read' i e (some (pos zero)) forward same = refl
  read_element_agree read read' i e (some (pos (suc n))) forward same =
      ap
        (λ o. o >>= λ (next_index, fields).
          element_to_group (i == 0) e fields >>= λ t. ok (next_index, t))
        (read_children_agree read read' (suc n) (i + 1) forward same)
  read_element_agree read read' i e (some (negsuc n)) forward same = refl

  from_thrift_helper_agree :
      (fuel fuel' : ℕ) (es : List SchemaElement) (i : ℕ)
      → 0 < fuel
      → 0 < fuel'
      → length es < fuel + i
      → length es < fuel' + i
      → from_thrift_helper max_precision fuel es i ≡ from_thrift_helper max_precision fuel' es i
  unfolding from_thrift_helper
  from_thrift_helper_agree zero fuel' es i p p' h h' = absurd (omega (arith, p))
  from_thrift_helper_agree (suc fuel) zero es i p p' h h' = absurd (omega (arith, p'))
  from_thrift_helper_agree (suc fuel) (suc fuel') es i p p' h h' =
      ap (λ o. reject (ltb (length es) i) >> o)
        (bind_congr (unwrap (get_elem? es i)) _ _ (λ e found.
          let inside : i < length es = inside_of es i e found in
          read_element_agree (from_thrift_helper max_precision fuel es)
            (from_thrift_helper max_precision fuel' es) i e e.num_children
            (from_thrift_helper-IsForward max_precision fuel es)
            (λ j le.
              from_thrift_helper_agree fuel fuel' es j (omega (arith, inside, h))
                (omega (arith, inside, h')) (omega (arith, inside, le, h))
                (omega (arith, inside, le, h')))))

  read_nodes_agree :
      (fuel fuel' : ℕ) (es : List SchemaElement) (i : ℕ)
      → length es ≤ fuel + i
      → length es ≤ fuel' + i
      → read_nodes max_precision fuel es i ≡ read_nodes max_precision fuel' es i
  unfolding read_nodes
  read_nodes_agree zero zero es i h h' = refl
  read_nodes_agree zero (suc fuel') es i h h' = rw (le→ltb i (length es) (omega (arith, h))) refl
  read_nodes_agree (suc fuel) zero es i h h' = rw (le→ltb i (length es) (omega (arith, h'))) refl
  read_nodes_agree (suc fuel) (suc fuel') es i h h' =
      ap (λ o. if ltb i (length es) then o else ok [])
        (bind_congr (from_thrift_helper max_precision (suc (length es)) es i) _ _ (λ (next, t) read.
          let later =
            from_thrift_helper-IsForward max_precision (suc (length es)) es i next t read in
          ap (λ o. o >>= λ ts. ok (t ∷ ts))
            (read_nodes_agree fuel fuel' es next (omega (arith, later, h))
              (omega (arith, later, h')))))

  -- `from_thrift` comes to an end for every list of elements, by a value, an error or a panic of the
  -- code: neither its recursion nor its loop is still running when the fuel that it gives them, or any
  -- greater fuel, is used up, from whatever index. And more fuel than it gives changes no result.
  pub from_thrift_fuel :
      (es : List SchemaElement) (more i : ℕ)
      → ¬ (from_thrift max_precision es ≡ running)
        × ¬ (from_thrift_helper max_precision (suc (length es) + more) es i ≡ running)
        × ¬ (read_nodes max_precision (length es + more) es i ≡ running)
        × (from_thrift_helper max_precision (suc (length es) + more) es i
            ≡ from_thrift_helper max_precision (suc (length es)) es i)
        × (read_nodes max_precision (length es + more) es i
            ≡ read_nodes max_precision (length es) es i)
  from_thrift_fuel es more i = (
    Ends-running _ (from_thrift-Ends max_precision es),
    Ends-running _ (
        from_thrift_helper-Ends max_precision (suc (length es) + more) es i (omega arith)
          (omega arith)),
    Ends-running _ (read_nodes-Ends max_precision (length es + more) es i (omega arith)),
    from_thrift_helper_agree (suc (length es) + more) (suc (length es)) es i (omega arith)
        (omega arith) (omega arith) (omega arith),
    read_nodes_agree (length es + more) (length es) es i (omega arith) (omega arith),
  )
