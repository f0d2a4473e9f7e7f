-- ===== src/Schema/Thrift/Forward.antt =====
-- src/schema/types.rs: the reading of elements goes forward.
use parquet_rs.Prelude.{
  ℕ, zero, suc, ◌+◌, ◌<◌, ◌≤◌, ◌≡◌, List, [], ◌∷◌, length, get_elem?, Option, none, some, Outcome,
  ok, reject, ◌>>=◌, unwrap, ℤ, pos, negsuc, ltb, arith, ◌==◌, bind_ok, then_ok,
}
use parquet_rs.Schema.Types.{SchemaType, Fields, nil}
use parquet_rs.Schema.Thrift.{
  SchemaElement, element_to_primitive, element_to_group, read_children, read_element,
  from_thrift_helper,
}

abbrev pub Reader : Type 0
Reader = ℕ → Outcome (ℕ × SchemaType)

-- A reader that only goes forward.
abbrev pub IsForward : Reader → Type 0
IsForward read = (i j : ℕ) (t : SchemaType) → read i ≡ ok (j, t) → i < j

pub read_children_forward :
    (read : Reader) (n i j : ℕ) (fields : Fields)
    → IsForward read
    → read_children read n i ≡ ok (j, fields)
    → i ≤ j
unfolding read_children
read_children_forward read zero i j fields forward h = let e : i ≡ j = cc h in omega (arith, e)
read_children_forward read (suc n) i j fields forward h =
    let ((next, t), first, h1) = bind_ok (read i) _ h in
    let ((end, fs), rest, h2) = bind_ok (read_children read n next) _ h1 in
    let e : end ≡ j = cc h2 in
    omega (arith, forward i next t first, read_children_forward read n next end fs forward rest, e)

pub inside_of :
    (es : List SchemaElement) (i : ℕ) (e : SchemaElement)
    → unwrap (get_elem? es i) ≡ ok e
    → i < length es
inside_of [] i e h = cc h
inside_of (x ∷ es) zero e h = omega arith
inside_of (x ∷ es) (suc i) e h = let inside = inside_of es i e h in omega (arith, inside)

module _ (max_precision : ℤ → ℤ) where
  pub read_element_forward :
      (read : Reader) (i j : ℕ) (e : SchemaElement) (n : Option ℤ) (t : SchemaType)
      → IsForward read
      → read_element max_precision read i e n ≡ ok (j, t)
      → i < j
  unfolding read_element
  read_element_forward read i j e none t forward h =
      let (u, made, h1) = bind_ok (element_to_primitive max_precision e) _ h in
      let same : i + 1 ≡ j = cc h1 in omega (arith, same)
  read_element_forward read i j e (some (pos zero)) t forward h =
      let (u, made, h1) = bind_ok (element_to_primitive max_precision e) _ h in
      let same : i + 1 ≡ j = cc h1 in omega (arith, same)
  read_element_forward read i j e (some (pos (suc n))) t forward h =
      let ((end, fields), children, h1) =
        bind_ok (read_children read (suc n) (i + 1))
          (λ (k, fs). element_to_group (i == 0) e fs >>= λ u. ok (k, u)) h in
      let (u, made, h2) = bind_ok (element_to_group (i == 0) e fields) (λ u. ok (end, u)) h1 in
      let same : end ≡ j = cc h2 in
      omega (arith, read_children_forward read (suc n) (i + 1) end fields forward children, same)
  read_element_forward read i j e (some (negsuc n)) t forward h =
      let (u, made, h2) = bind_ok (element_to_group (i == 0) e nil) (λ u. ok (i + 1, u)) h in
      let same : i + 1 ≡ j = cc h2 in omega (arith, same)

  pub from_thrift_helper-IsForward :
      (fuel : ℕ) (es : List SchemaElement) → IsForward (from_thrift_helper max_precision fuel es)
  unfolding from_thrift_helper
  from_thrift_helper-IsForward zero es i j t h = cc h
  from_thrift_helper-IsForward (suc fuel) es i j t h =
      let h1 = then_ok (reject (ltb (length es) i)) _ h in
      let (e, found, h2) = bind_ok (unwrap (get_elem? es i)) _ h1 in
      read_element_forward (from_thrift_helper max_precision fuel es) i j e e.num_children t
        (from_thrift_helper-IsForward fuel es) h2
