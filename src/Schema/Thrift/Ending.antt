-- ===== src/Schema/Thrift/Ending.antt =====
-- src/schema/types.rs: `build`, `from_thrift_helper` and `from_thrift` come to an end.
use parquet_rs.Schema.Builder.Annotated.{type_of}
use parquet_rs.Prelude.{
  lt_int, le_int, ◌&&◌, ℕ, zero, suc, ◌+◌, ◌<◌, ◌≤◌, List, [], ◌∷◌, length, get_elem?, Option, none,
  some, Outcome, ok, err, general, reject, ◌>>=◌, ◌>>◌, unwrap, ℤ, pos, negsuc, ltb, le→ltb, arith,
  ◌==◌, Bool-cases, inl, inr, Ends, bind-Ends, then-Ends, reject-Ends, unwrap-Ends, not, ◌||◌,
  eq_int,
}
use parquet_rs.Basic.Thrift.{
  FieldRepetitionType, ThriftType, type_from_thrift, repetition_from_thrift,
  logical_type_from_thrift,
}
use parquet_rs.Basic.{
  PhysicalType, LogicalType, type_eq, int32, int64, byte_array, fixed_len_byte_array,
}
use parquet_rs.Schema.Types.{SchemaType}
use parquet_rs.Schema.Builder.{
  primitive_type_builder, with_repetition, with_logical_type, with_length, with_precision,
  with_scale, with_id, PrimitiveTypeBuilder, check_decimal_type, check_decimal_limit, check_decimal,
  check_logical_type, build,
}
use parquet_rs.Schema.Thrift.{
  single_root, unwrap_or, SchemaElement, element_to_primitive, element_to_group, read_children,
  read_element, from_thrift_helper, read_nodes, from_thrift,
}
use parquet_rs.Schema.Thrift.Forward.{Reader, IsForward, inside_of, from_thrift_helper-IsForward}

check_decimal_type-Ends : (p : PhysicalType) → Ends (check_decimal_type p)
unfolding check_decimal_type
check_decimal_type-Ends PhysicalType.boolean = tt
check_decimal_type-Ends PhysicalType.int32 = tt
check_decimal_type-Ends PhysicalType.int64 = tt
check_decimal_type-Ends PhysicalType.int96 = tt
check_decimal_type-Ends PhysicalType.float = tt
check_decimal_type-Ends PhysicalType.double = tt
check_decimal_type-Ends PhysicalType.byte_array = tt
check_decimal_type-Ends PhysicalType.fixed_len_byte_array = tt

module _ (max_precision : ℤ → ℤ) where
  check_decimal_limit-Ends :
      (p : PhysicalType) (n d : ℤ) → Ends (check_decimal_limit max_precision p n d)
  unfolding check_decimal_limit
  check_decimal_limit-Ends PhysicalType.int32 n d = reject-Ends (lt_int (pos 9) d)
  check_decimal_limit-Ends PhysicalType.int64 n d = reject-Ends (lt_int (pos 18) d)
  check_decimal_limit-Ends PhysicalType.fixed_len_byte_array n d =
      reject-Ends (lt_int (max_precision n) d)
  check_decimal_limit-Ends PhysicalType.boolean n d = tt
  check_decimal_limit-Ends PhysicalType.int96 n d = tt
  check_decimal_limit-Ends PhysicalType.float n d = tt
  check_decimal_limit-Ends PhysicalType.double n d = tt
  check_decimal_limit-Ends PhysicalType.byte_array n d = tt

  check_decimal-Ends : (b : PrimitiveTypeBuilder) → Ends (check_decimal max_precision b)
  unfolding check_decimal
  check_decimal-Ends b =
      let limit = check_decimal_limit max_precision b.physical_type b.length b.precision in
      let scale = reject (lt_int b.scale (pos 0)) in
      let both = reject (le_int b.precision b.scale) in
      let precision = reject (lt_int b.precision (pos 1)) in
      then-Ends (check_decimal_type b.physical_type) (precision >> (scale >> (both >> limit)))
        (check_decimal_type-Ends b.physical_type)
        (then-Ends precision (scale >> (both >> limit)) (reject-Ends (lt_int b.precision (pos 1))) (
          then-Ends scale (both >> limit) (reject-Ends (lt_int b.scale (pos 0))) (
            then-Ends both limit (reject-Ends (le_int b.precision b.scale))
              (check_decimal_limit-Ends b.physical_type b.length b.precision))))

  check_logical_type-Ends :
      (l : LogicalType) (b : PrimitiveTypeBuilder) → Ends (check_logical_type max_precision l b)
  unfolding check_logical_type
  check_logical_type-Ends LogicalType.none_type b = tt
  check_logical_type-Ends LogicalType.decimal b = check_decimal-Ends b
  check_logical_type-Ends LogicalType.map b = tt
  check_logical_type-Ends LogicalType.map_key_value b = tt
  check_logical_type-Ends LogicalType.list b = tt
  check_logical_type-Ends LogicalType.utf8 b =
      reject-Ends (not (type_eq b.physical_type byte_array))
  check_logical_type-Ends LogicalType.bson b =
      reject-Ends (not (type_eq b.physical_type byte_array))
  check_logical_type-Ends LogicalType.json b =
      reject-Ends (not (type_eq b.physical_type byte_array))
  check_logical_type-Ends LogicalType.date b = reject-Ends (not (type_eq b.physical_type int32))
  check_logical_type-Ends LogicalType.time_millis b =
      reject-Ends (not (type_eq b.physical_type int32))
  check_logical_type-Ends LogicalType.uint_8 b = reject-Ends (not (type_eq b.physical_type int32))
  check_logical_type-Ends LogicalType.uint_16 b = reject-Ends (not (type_eq b.physical_type int32))
  check_logical_type-Ends LogicalType.uint_32 b = reject-Ends (not (type_eq b.physical_type int32))
  check_logical_type-Ends LogicalType.int_8 b = reject-Ends (not (type_eq b.physical_type int32))
  check_logical_type-Ends LogicalType.int_16 b = reject-Ends (not (type_eq b.physical_type int32))
  check_logical_type-Ends LogicalType.int_32 b = reject-Ends (not (type_eq b.physical_type int32))
  check_logical_type-Ends LogicalType.time_micros b =
      reject-Ends (not (type_eq b.physical_type int64))
  check_logical_type-Ends LogicalType.timestamp_millis b =
      reject-Ends (not (type_eq b.physical_type int64))
  check_logical_type-Ends LogicalType.timestamp_micros b =
      reject-Ends (not (type_eq b.physical_type int64))
  check_logical_type-Ends LogicalType.uint_64 b = reject-Ends (not (type_eq b.physical_type int64))
  check_logical_type-Ends LogicalType.int_64 b = reject-Ends (not (type_eq b.physical_type int64))
  check_logical_type-Ends LogicalType.interval b =
      reject-Ends
        (not (type_eq b.physical_type fixed_len_byte_array) || not (eq_int b.length (pos 12)))
  check_logical_type-Ends LogicalType.enum b =
      reject-Ends (not (type_eq b.physical_type byte_array))

  build-Ends : (b : PrimitiveTypeBuilder) → Ends (build max_precision b)
  unfolding build
  build-Ends b =
      let fixed = type_eq b.physical_type fixed_len_byte_array && lt_int b.length (pos 0) in
      let made = ok (type_of b) in
      then-Ends (reject fixed) (check_logical_type max_precision b.logical_type b >> made)
        (reject-Ends fixed)
        (then-Ends (check_logical_type max_precision b.logical_type b) made
          (check_logical_type-Ends b.logical_type b) tt)

  repetition_type-Ends :
      (o : Option FieldRepetitionType)
      → Ends (elim o as (λ x. Outcome FieldRepetitionType) [ none ↦ err general | some r ↦ ok r ])
  repetition_type-Ends none = tt
  repetition_type-Ends (some r) = tt

  element_to_primitive-Ends : (e : SchemaElement) → Ends (element_to_primitive max_precision e)
  unfolding element_to_primitive
  element_to_primitive-Ends e =
      bind-Ends
        (elim e.repetition_type as (λ x. Outcome FieldRepetitionType) [
          | none ↦ err general
          | some r ↦ ok r
        ])
        (λ r. unwrap e.type_ >>= λ t. build max_precision (builder_of r t))
        (repetition_type-Ends e.repetition_type)
        (λ r found.
          bind-Ends (unwrap e.type_) (λ t. build max_precision (builder_of r t))
            (unwrap-Ends e.type_) (λ t read. build-Ends (builder_of r t)))
    where
      builder_of : FieldRepetitionType → ThriftType → PrimitiveTypeBuilder
      builder_of r t =
          let physical_type = type_from_thrift t in
          let builder = with_scale (unwrap_or (negsuc 0) e.scale) (
            with_precision (unwrap_or (negsuc 0) e.precision) (
              with_length (unwrap_or (negsuc 0) e.type_length) (
                with_logical_type (logical_type_from_thrift e.converted_type) (
                  with_repetition (repetition_from_thrift r)
                    (primitive_type_builder e.name physical_type))))) in
          elim e.field_id [ none ↦ builder | some id ↦ with_id id builder ]

  read_children-Ends :
      (read : Reader) (n i : ℕ)
      → IsForward read
      → ((j : ℕ) → i ≤ j → Ends (read j))
      → Ends (read_children read n i)
  unfolding read_children
  read_children-Ends read zero i forward ends = tt
  read_children-Ends read (suc n) i forward ends =
      bind-Ends (read i) _ (ends i (omega arith)) (λ (next, t) first.
        bind-Ends (read_children read n next) _
          (read_children-Ends read n next forward
            (λ j le. ends j (omega (arith, le, forward i next t first))))
          (λ a rest. tt))

  read_element-Ends :
      (read : Reader) (i : ℕ) (e : SchemaElement) (n : Option ℤ)
      → IsForward read
      → ((j : ℕ) → i + 1 ≤ j → Ends (read j))
      → Ends (read_element max_precision read i e n)
  unfolding read_element
  read_element-Ends read i e none forward ends =
      bind-Ends (element_to_primitive max_precision e) _ (element_to_primitive-Ends e)
        (λ t made. tt)
  read_element-Ends read i e (some (pos zero)) forward ends =
      bind-Ends (element_to_primitive max_precision e) _ (element_to_primitive-Ends e)
        (λ t made. tt)
  read_element-Ends read i e (some (pos (suc n))) forward ends =
      bind-Ends (read_children read (suc n) (i + 1))
        (λ (next, fields). element_to_group (i == 0) e fields >>= λ t. ok (next, t))
        (read_children-Ends read (suc n) (i + 1) forward ends) (λ a children. tt)
  read_element-Ends read i e (some (negsuc n)) forward ends = tt

  pub from_thrift_helper-Ends :
      (fuel : ℕ) (es : List SchemaElement) (i : ℕ)
      → 0 < fuel
      → length es < fuel + i
      → Ends (from_thrift_helper max_precision fuel es i)
  unfolding from_thrift_helper
  from_thrift_helper-Ends zero es i p h = absurd (omega (arith, p))
  from_thrift_helper-Ends (suc fuel) es i p h =
      then-Ends (reject (ltb (length es) i)) _ (reject-Ends _) (
        bind-Ends (unwrap (get_elem? es i)) _ (unwrap-Ends (get_elem? es i)) (λ e found.
          let inside : i < length es = inside_of es i e found in
          read_element-Ends (from_thrift_helper max_precision fuel es) i e e.num_children
            (from_thrift_helper-IsForward max_precision fuel es)
            (λ j le.
              from_thrift_helper-Ends fuel es j (omega (arith, inside, h))
                (omega (arith, inside, le, h)))))

  pub read_nodes-Ends :
      (fuel : ℕ) (es : List SchemaElement) (i : ℕ)
      → length es ≤ fuel + i
      → Ends (read_nodes max_precision fuel es i)
  unfolding read_nodes
  read_nodes-Ends zero es i h = rw (le→ltb i (length es) (omega (arith, h))) tt
  read_nodes-Ends (suc fuel) es i h = elim (Bool-cases (ltb i (length es))) [
    | inr past ↦ rw past tt
    | inl inside ↦ rw inside (
        bind-Ends (from_thrift_helper max_precision (suc (length es)) es i) _
          (from_thrift_helper-Ends (suc (length es)) es i (omega arith) (omega arith))
          (λ (next, t) read.
            let later =
              from_thrift_helper-IsForward max_precision (suc (length es)) es i next t read in
            bind-Ends (read_nodes max_precision fuel es next) _
              (read_nodes-Ends fuel es next (omega (arith, later, h))) (λ ts rest. tt)))
  ]

  single_root-Ends : (nodes : List SchemaType) → Ends (single_root nodes)
  single_root-Ends [] = tt
  single_root-Ends (t ∷ []) = tt
  single_root-Ends (t ∷ (u ∷ ts)) = tt

  pub from_thrift-Ends : (es : List SchemaElement) → Ends (from_thrift max_precision es)
  unfolding from_thrift
  from_thrift-Ends es =
      bind-Ends (read_nodes max_precision (length es) es 0) single_root
        (read_nodes-Ends (length es) es 0 (omega arith)) (λ nodes read. single_root-Ends nodes)
