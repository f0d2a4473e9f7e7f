-- ===== src/Schema/Thrift/RoundTrip.antt =====
-- src/schema/types.rs: a schema that is written as elements is read back.
use parquet_rs.Prelude.{
  ℕ, zero, suc, ◌+◌, ◌≤◌, ◌≡◌, refl, ap, sym, List, [], ◌∷◌, append_nil, length, true, ok, ◌>>=◌, ℤ,
  to_i32, le→ltb, lt→ltb, arith,
}
use parquet_rs.Schema.Types.{SchemaType, primitive_type, group_type, num_fields}
use parquet_rs.Schema.Thrift.{
  SchemaElement, to_thrift_helper, to_thrift, from_thrift_helper, read_nodes, from_thrift,
}
use parquet_rs.Schema.Thrift.Elements.{group_of, group_to_element_lem, element_to_group-root}
use parquet_rs.Schema.Thrift.Messages.{IsMessage, elements_of_fields, written_fields}
use parquet_rs.Schema.Thrift.Reading.{read_group, read_fields}

module _ (max_precision : ℤ → ℤ) where
  read_nodes_end :
      (fuel : ℕ) (es : List SchemaElement) (i : ℕ)
      → length es ≤ i
      → read_nodes max_precision fuel es i ≡ ok []
  unfolding read_nodes
  read_nodes_end zero es i h = rw (le→ltb i (length es) h) refl
  read_nodes_end (suc fuel) es i h = rw (le→ltb i (length es) h) refl

  -- One node that takes up all the elements is what is read.
  from_thrift_one :
      (e : SchemaElement) (es : List SchemaElement) (next : ℕ) (t : SchemaType)
      → length (e ∷ es) ≤ next
      → from_thrift_helper max_precision (suc (length (e ∷ es))) (e ∷ es) 0 ≡ ok (next, t)
      → from_thrift max_precision (e ∷ es) ≡ ok t
  from_thrift_one e es next t far h =
      unfold from_thrift read_nodes in
      rw (lt→ltb 0 (length (e ∷ es)) (omega arith), h, read_nodes_end (length es) (e ∷ es) next far)
        refl

  -- A message type that is written as elements is read back from them, whatever the limit on a
  -- decimal's precision: its root has no repetition, each group has at least one field and fewer than
  -- 2 ^ 31, each field has a repetition, and each primitive type is one that its builder makes, with
  -- no length, scale or precision below -1.
  pub from_thrift-to_thrift :
      (schema : SchemaType)
      → IsMessage max_precision schema
      → (to_thrift schema >>= from_thrift max_precision) ≡ ok schema
  unfolding to_thrift to_thrift_helper
  from_thrift-to_thrift (primitive_type info p l s d) h = absurd h
  from_thrift-to_thrift (group_type info fields) (root, children, each) =
      let g = group_of info (to_i32 (num_fields fields)) in
      let below = elements_of_fields fields in
      let read =
        read_fields max_precision fields (length (g ∷ below)) (g ∷ []) [] (g ∷ below) each
          (ap (λ l. g ∷ l) (sym (append_nil below))) (omega arith) (omega arith) in
      let node : from_thrift_helper max_precision (suc (length (g ∷ below))) (g ∷ below) 0
          ≡ ok (1 + length below, group_type info fields) =
        read_group max_precision true info fields (length (g ∷ below)) [] below (1 + length below)
          children refl (element_to_group-root info (to_i32 (num_fields fields)) fields root)
          read in
      rw
        (
          group_to_element_lem info (num_fields fields),
          written_fields max_precision fields (g ∷ []) each,
        )
        (from_thrift_one g below (1 + length below) (group_type info fields) (omega arith) node)
