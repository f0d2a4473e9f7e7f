-- ===== src/Schema/Builder/Annotated.antt =====
-- src/schema/types.rs: what `build` asks of the type that a logical type annotates.
use parquet_rs.Prelude.{
  ap₂, subst, ℕ, ◌<◌, ◌≤◌, ◌≡◌, refl, ap, sym, ◌∙◌, ◌↔◌, Bool, true, false, not, ◌||◌, some,
  Outcome, ok, err, panic, running, reject, ◌>>◌, ℤ, pos, negsuc, lt_int, le_int, eq_int, arith,
  leb, ltb, ltb→le, le→ltb, ==_iff,
}
use parquet_rs.Basic.{
  PhysicalType, int32, int64, byte_array, fixed_len_byte_array, type_eq, LogicalType,
}
use parquet_rs.Basic.Equality.{type_eq_iff}
use parquet_rs.Schema.Types.{SchemaType, primitive_type}
use parquet_rs.Schema.Builder.{
  PrimitiveTypeBuilder, check_decimal_type, check_decimal_limit, check_decimal, check_logical_type,
}

-- As many digits as a number says that is computed from the length.
abbrev pub UpTo : (ℤ → ℤ) → ℤ → ℕ → Type 0
UpTo max_precision length digits = le_int (pos digits) (max_precision length) ≡ true

-- How many digits a decimal may have; `limit` says it of a FIXED_LEN_BYTE_ARRAY of a length.
abbrev pub HasDigits : (ℤ → ℕ → Type 0) → PhysicalType → ℤ → ℕ → Type 0
HasDigits limit int32 length digits = digits ≤ 9
HasDigits limit int64 length digits = digits ≤ 18
HasDigits limit fixed_len_byte_array length digits = limit length digits
HasDigits limit byte_array length digits = Unit
HasDigits limit _ length digits = ⊥

-- A decimal's scale is a number below its precision, and its physical type holds that many digits.
abbrev pub IsDecimal : (ℤ → ℕ → Type 0) → PrimitiveTypeBuilder → Type 0
IsDecimal limit b =
    (digits after : ℕ) × (b.precision ≡ pos digits)
    × (b.scale ≡ pos after)
    × (after < digits)
    × HasDigits limit b.physical_type b.length digits

-- What a logical type asks of the type that it annotates.
abbrev pub IsAnnotated : (ℤ → ℕ → Type 0) → LogicalType → PrimitiveTypeBuilder → Type 0
IsAnnotated limit LogicalType.none_type b = Unit
IsAnnotated limit LogicalType.decimal b = IsDecimal limit b
IsAnnotated limit LogicalType.interval b =
    (b.physical_type ≡ fixed_len_byte_array) × (b.length ≡ pos 12)
IsAnnotated limit LogicalType.utf8 b = b.physical_type ≡ byte_array
IsAnnotated limit LogicalType.bson b = b.physical_type ≡ byte_array
IsAnnotated limit LogicalType.json b = b.physical_type ≡ byte_array
IsAnnotated limit LogicalType.enum b = b.physical_type ≡ byte_array
IsAnnotated limit LogicalType.date b = b.physical_type ≡ int32
IsAnnotated limit LogicalType.time_millis b = b.physical_type ≡ int32
IsAnnotated limit LogicalType.uint_8 b = b.physical_type ≡ int32
IsAnnotated limit LogicalType.uint_16 b = b.physical_type ≡ int32
IsAnnotated limit LogicalType.uint_32 b = b.physical_type ≡ int32
IsAnnotated limit LogicalType.int_8 b = b.physical_type ≡ int32
IsAnnotated limit LogicalType.int_16 b = b.physical_type ≡ int32
IsAnnotated limit LogicalType.int_32 b = b.physical_type ≡ int32
IsAnnotated limit LogicalType.time_micros b = b.physical_type ≡ int64
IsAnnotated limit LogicalType.timestamp_millis b = b.physical_type ≡ int64
IsAnnotated limit LogicalType.timestamp_micros b = b.physical_type ≡ int64
IsAnnotated limit LogicalType.uint_64 b = b.physical_type ≡ int64
IsAnnotated limit LogicalType.int_64 b = b.physical_type ≡ int64
IsAnnotated limit _ b = ⊥

-- The type with the builder's attributes.
abbrev pub type_of : PrimitiveTypeBuilder → SchemaType
type_of b =
    primitive_type
      (record {
        name = b.name;
        repetition = some b.repetition;
        logical_type = b.logical_type;
        id = b.id;
      })
      b.physical_type b.length b.scale b.precision

pub then_iff {ℓ} :
    {A : Type ℓ} (o : Outcome (Unit {0})) (next : Outcome A) (a : A)
    → ((o >> next) ≡ ok a) ↔ ((o ≡ ok tt) × (next ≡ ok a))
then_iff running next a = (λ h. cc h, λ (e, h). cc e)
then_iff panic next a = (λ h. cc h, λ (e, h). cc e)
then_iff (err x) next a = (λ h. cc h, λ (e, h). cc e)
then_iff (ok u) next a = (λ h. (refl, h), λ (e, h). h)

pub reject_iff : (c : Bool) → (reject c ≡ ok tt) ↔ (c ≡ false)
reject_iff true = (λ h. cc h, λ h. cc h)
reject_iff false = (λ h. refl, λ h. refl)

not_iff : (b : Bool) → (not b ≡ false) ↔ (b ≡ true)
not_iff true = (λ h. refl, λ h. refl)
not_iff false = (λ h. cc h, λ h. cc h)

or_false : (a b : Bool) → ((a || b) ≡ false) ↔ ((a ≡ false) × (b ≡ false))
or_false true b = (λ h. cc h, λ (h, k). cc h)
or_false false b = (λ h. (refl, h), λ (h, k). k)

one_type : (p q : PhysicalType) → (reject (not (type_eq p q)) ≡ ok tt) ↔ (p ≡ q)
one_type p q =
    let r = reject_iff (not (type_eq p q)) in
    let n = not_iff (type_eq p q) in
    let t = type_eq_iff p q in (λ h. t.0 (n.0 (r.0 h)), λ e. r.1 (n.1 (t.1 e)))

pub lt_int_iff : (a b : ℤ) → (lt_int a b ≡ false) ↔ (le_int b a ≡ true)
lt_int_iff (pos m) (pos n) = ground arith
lt_int_iff (pos m) (negsuc n) = (λ h. refl, λ h. refl)
lt_int_iff (negsuc m) (pos n) = (λ h. cc h, λ h. cc h)
lt_int_iff (negsuc m) (negsuc n) = ground arith

limit_iff :
    (max_precision : ℤ → ℤ) (p : PhysicalType) (length : ℤ) (digits : ℕ)
    → ((check_decimal_type p ≡ ok tt)
        × (check_decimal_limit max_precision p length (pos digits) ≡ ok tt))
      ↔ HasDigits (UpTo max_precision) p length digits
unfolding check_decimal_type check_decimal_limit
limit_iff max_precision PhysicalType.int32 length digits =
    let r = reject_iff (ltb 9 digits) in
    (λ (h, k). ltb→le 9 digits (r.0 k), λ h. (refl, r.1 (le→ltb 9 digits h)))
limit_iff max_precision PhysicalType.int64 length digits =
    let r = reject_iff (ltb 18 digits) in
    (λ (h, k). ltb→le 18 digits (r.0 k), λ h. (refl, r.1 (le→ltb 18 digits h)))
limit_iff max_precision PhysicalType.fixed_len_byte_array length digits =
    let r = reject_iff (lt_int (max_precision length) (pos digits)) in
    let l = lt_int_iff (max_precision length) (pos digits) in
    (λ (h, k). l.0 (r.0 k), λ h. (refl, r.1 (l.1 h)))
limit_iff max_precision PhysicalType.byte_array length digits = (λ h. tt, λ h. (refl, refl))
limit_iff max_precision PhysicalType.boolean length digits = (λ (h, k). cc h, λ h. absurd h)
limit_iff max_precision PhysicalType.int96 length digits = (λ (h, k). cc h, λ h. absurd h)
limit_iff max_precision PhysicalType.float length digits = (λ (h, k). cc h, λ h. absurd h)
limit_iff max_precision PhysicalType.double length digits = (λ (h, k). cc h, λ h. absurd h)

eq_int_iff : (z : ℤ) (n : ℕ) → (eq_int z (pos n) ≡ true) ↔ (z ≡ pos n)
eq_int_iff (pos m) n =
    (λ h. ap pos ((==_iff m n).0 h), λ e. let same : m ≡ n = cc e in (==_iff m n).1 same)
eq_int_iff (negsuc m) n = (λ h. cc h, λ e. cc e)

numbers_tested :
    (d s : ℤ)
    → reject (lt_int d (pos 1)) ≡ ok tt
    → reject (lt_int s (pos 0)) ≡ ok tt
    → reject (le_int d s) ≡ ok tt
    → (digits after : ℕ) × (d ≡ pos digits) × (s ≡ pos after) × (after < digits)
numbers_tested (pos m) (pos n) h k l =
    let least = (reject_iff (leb m n)).0 l in (m, n, refl, refl, ground (arith, least))
numbers_tested (pos m) (negsuc n) h k l = cc k
numbers_tested (negsuc m) s h k l = cc h

numbers_pass :
    (d s : ℤ) (digits after : ℕ)
    → d ≡ pos digits
    → s ≡ pos after
    → after < digits
    → (reject (lt_int d (pos 1)) ≡ ok tt)
      × (reject (lt_int s (pos 0)) ≡ ok tt)
      × (reject (le_int d s) ≡ ok tt)
numbers_pass d s digits after hd hs less = (
  ap (λ z. reject (lt_int z (pos 1))) hd ∙ (reject_iff (ltb digits 1)).1 (ground arith),
  ap (λ z. reject (lt_int z (pos 0))) hs ∙ (reject_iff (ltb after 0)).1 (ground arith),
  ap₂ (λ y z. reject (le_int y z)) hd hs ∙ (reject_iff (leb digits after)).1 (ground arith),
)

check_decimal_iff :
    (max_precision : ℤ → ℤ) (b : PrimitiveTypeBuilder)
    → (check_decimal max_precision b ≡ ok tt) ↔ IsDecimal (UpTo max_precision) b
unfolding check_decimal
check_decimal_iff max_precision b =
    let c0 = then_iff (check_decimal_type b.physical_type) _ tt in
    let c1 = then_iff (reject (lt_int b.precision (pos 1))) _ tt in
    let c2 = then_iff (reject (lt_int b.scale (pos 0))) _ tt in
    let c3 =
      then_iff (reject (le_int b.precision b.scale))
        (check_decimal_limit max_precision b.physical_type b.length b.precision) tt in
    (
      λ h.
          let (h0, r0) = c0.0 h in
          let (h1, r1) = c1.0 r0 in
          let (h2, r2) = c2.0 r1 in
          let (h3, h4) = c3.0 r2 in
          let (digits, after, d, s, less) = numbers_tested b.precision b.scale h1 h2 h3 in
          let limit =
            subst (λ z. check_decimal_limit max_precision b.physical_type b.length z ≡ ok tt) d
              h4 in
          (
            digits,
            after,
            d,
            s,
            less,
            (limit_iff max_precision b.physical_type b.length digits).0 (h0, limit),
          ),
      λ (digits, after, d, s, less, fits).
          let (h0, limit) = (limit_iff max_precision b.physical_type b.length digits).1 fits in
          let (h1, h2, h3) = numbers_pass b.precision b.scale digits after d s less in
          let limit' =
            subst (λ z. check_decimal_limit max_precision b.physical_type b.length z ≡ ok tt)
              (sym d) limit in
          c0.1 (h0, c1.1 (h1, c2.1 (h2, c3.1 (h3, limit')))),
    )

pub check_logical_type_iff :
    (max_precision : ℤ → ℤ) (l : LogicalType) (b : PrimitiveTypeBuilder)
    → (check_logical_type max_precision l b ≡ ok tt) ↔ IsAnnotated (UpTo max_precision) l b
unfolding check_logical_type
check_logical_type_iff max_precision LogicalType.none_type b = (λ h. tt, λ h. refl)
check_logical_type_iff max_precision LogicalType.decimal b = check_decimal_iff max_precision b
check_logical_type_iff max_precision LogicalType.interval b =
    let t = type_eq b.physical_type fixed_len_byte_array in
    let e = eq_int b.length (pos 12) in
    let r = reject_iff (not t || not e) in
    let o = or_false (not t) (not e) in
    let p = type_eq_iff b.physical_type fixed_len_byte_array in
    let z = eq_int_iff b.length 12 in
    (
      λ h. let (h0, h1) = o.0 (r.0 h) in (p.0 ((not_iff t).0 h0), z.0 ((not_iff e).0 h1)),
      λ (h0, h1). r.1 (o.1 ((not_iff t).1 (p.1 h0), (not_iff e).1 (z.1 h1))),
    )
check_logical_type_iff max_precision LogicalType.utf8 b = one_type b.physical_type byte_array
check_logical_type_iff max_precision LogicalType.bson b = one_type b.physical_type byte_array
check_logical_type_iff max_precision LogicalType.json b = one_type b.physical_type byte_array
check_logical_type_iff max_precision LogicalType.enum b = one_type b.physical_type byte_array
check_logical_type_iff max_precision LogicalType.date b = one_type b.physical_type int32
check_logical_type_iff max_precision LogicalType.time_millis b = one_type b.physical_type int32
check_logical_type_iff max_precision LogicalType.uint_8 b = one_type b.physical_type int32
check_logical_type_iff max_precision LogicalType.uint_16 b = one_type b.physical_type int32
check_logical_type_iff max_precision LogicalType.uint_32 b = one_type b.physical_type int32
check_logical_type_iff max_precision LogicalType.int_8 b = one_type b.physical_type int32
check_logical_type_iff max_precision LogicalType.int_16 b = one_type b.physical_type int32
check_logical_type_iff max_precision LogicalType.int_32 b = one_type b.physical_type int32
check_logical_type_iff max_precision LogicalType.time_micros b = one_type b.physical_type int64
check_logical_type_iff max_precision LogicalType.timestamp_millis b = one_type b.physical_type int64
check_logical_type_iff max_precision LogicalType.timestamp_micros b = one_type b.physical_type int64
check_logical_type_iff max_precision LogicalType.uint_64 b = one_type b.physical_type int64
check_logical_type_iff max_precision LogicalType.int_64 b = one_type b.physical_type int64
check_logical_type_iff max_precision LogicalType.map b = (λ h. cc h, λ h. absurd h)
check_logical_type_iff max_precision LogicalType.map_key_value b = (λ h. cc h, λ h. absurd h)
check_logical_type_iff max_precision LogicalType.list b = (λ h. cc h, λ h. absurd h)
