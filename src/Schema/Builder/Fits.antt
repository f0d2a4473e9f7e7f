-- ===== src/Schema/Builder/Fits.antt =====
-- src/schema/types.rs: which primitive types `build` makes, with the code's limit on decimals.
use parquet_rs.Basic.{PhysicalType, fixed_len_byte_array, LogicalType}
use parquet_rs.Schema.Types.{SchemaType}
use parquet_rs.Schema.Builder.{PrimitiveTypeBuilder, build}
use parquet_rs.Schema.Builder.Annotated.{UpTo, HasDigits, IsAnnotated, type_of}
use parquet_rs.Schema.Builder.Limit.{max_precision}
use parquet_rs.Schema.Builder.Digits.{HoldsDigits, limit_lem}
use parquet_rs.Schema.Builder.Valid.{build_iff}
use parquet_rs.Prelude.{
  ℕ, ◌^◌, ◌<◌, ◌≡◌, subst, ◌↔◌, true, ok, ℤ, pos, negsuc, lt_int, le_int, ltb→lt, refl, arith,
}

HasDigits-map :
    (limit limit' : ℤ → ℕ → Type 0) (p : PhysicalType) (length : ℤ) (digits : ℕ)
    → ((p ≡ fixed_len_byte_array) → limit length digits → limit' length digits)
    → HasDigits limit p length digits
    → HasDigits limit' p length digits
HasDigits-map limit limit' PhysicalType.int32 length digits f h = h
HasDigits-map limit limit' PhysicalType.int64 length digits f h = h
HasDigits-map limit limit' PhysicalType.fixed_len_byte_array length digits f h = f refl h
HasDigits-map limit limit' PhysicalType.byte_array length digits f h = h
HasDigits-map limit limit' PhysicalType.boolean length digits f h = h
HasDigits-map limit limit' PhysicalType.int96 length digits f h = h
HasDigits-map limit limit' PhysicalType.float length digits f h = h
HasDigits-map limit limit' PhysicalType.double length digits f h = h

IsAnnotated-map :
    (limit limit' : ℤ → ℕ → Type 0) (l : LogicalType) (b : PrimitiveTypeBuilder)
    → ((digits : ℕ)
        → 0 < digits
        → b.precision ≡ pos digits
        → (b.physical_type ≡ fixed_len_byte_array)
        → limit b.length digits
        → limit' b.length digits)
    → IsAnnotated limit l b
    → IsAnnotated limit' l b
IsAnnotated-map limit limit' LogicalType.decimal b f (digits, after, d, s, less, has) = (
  digits,
  after,
  d,
  s,
  less,
  HasDigits-map limit limit' b.physical_type b.length digits (f digits (omega (arith, less)) d) has,
)
IsAnnotated-map limit limit' LogicalType.none_type b f h = h
IsAnnotated-map limit limit' LogicalType.interval b f h = h
IsAnnotated-map limit limit' LogicalType.utf8 b f h = h
IsAnnotated-map limit limit' LogicalType.bson b f h = h
IsAnnotated-map limit limit' LogicalType.json b f h = h
IsAnnotated-map limit limit' LogicalType.enum b f h = h
IsAnnotated-map limit limit' LogicalType.date b f h = h
IsAnnotated-map limit limit' LogicalType.time_millis b f h = h
IsAnnotated-map limit limit' LogicalType.uint_8 b f h = h
IsAnnotated-map limit limit' LogicalType.uint_16 b f h = h
IsAnnotated-map limit limit' LogicalType.uint_32 b f h = h
IsAnnotated-map limit limit' LogicalType.int_8 b f h = h
IsAnnotated-map limit limit' LogicalType.int_16 b f h = h
IsAnnotated-map limit limit' LogicalType.int_32 b f h = h
IsAnnotated-map limit limit' LogicalType.time_micros b f h = h
IsAnnotated-map limit limit' LogicalType.timestamp_millis b f h = h
IsAnnotated-map limit limit' LogicalType.timestamp_micros b f h = h
IsAnnotated-map limit limit' LogicalType.uint_64 b f h = h
IsAnnotated-map limit limit' LogicalType.int_64 b f h = h
IsAnnotated-map limit limit' LogicalType.map b f h = h
IsAnnotated-map limit limit' LogicalType.map_key_value b f h = h
IsAnnotated-map limit limit' LogicalType.list b f h = h

-- The two limits agree on every length and precision of 32 bits, of the lengths from zero on.
limit_int :
    (length : ℤ) (digits : ℕ)
    → lt_int length (pos (2 ^ 28)) ≡ true
    → le_int (pos 0) length ≡ true
    → 0 < digits
    → lt_int (pos digits) (pos (2 ^ 31)) ≡ true
    → UpTo max_precision length digits ↔ HoldsDigits length digits
limit_int (pos n) digits small from_zero some_digits digits_small =
    limit_lem n digits (ltb→lt n (2 ^ 28) small) some_digits (ltb→lt digits (2 ^ 31) digits_small)
limit_int (negsuc n) digits small from_zero some_digits digits_small = cc from_zero

-- If the length is below 2^28, where the code's `8 * self.length` is an `i32`, and the precision below
-- 2^31, `build` makes a type, the one with the builder's attributes, exactly if a FIXED_LEN_BYTE_ARRAY
-- has a length from zero on and the logical type may annotate the physical type: none any; UTF8, BSON,
-- JSON and ENUM a BYTE_ARRAY; DATE, TIME_MILLIS and the integers of up to 32 bits an INT32;
-- TIME_MICROS, the timestamps and the integers of 64 bits an INT64; INTERVAL a FIXED_LEN_BYTE_ARRAY of
-- 12 bytes; MAP, MAP_KEY_VALUE and LIST nothing; and DECIMAL, with a scale from zero on and below the
-- precision, an INT32 with at most 9 digits, an INT64 with at most 18, a BYTE_ARRAY with any number, a
-- FIXED_LEN_BYTE_ARRAY of n bytes, n at most 128, with d digits if 10^d < 2^(8n - 1), and one of more
-- than 128 bytes with any number.
pub build_lem :
    (b : PrimitiveTypeBuilder) (t : SchemaType)
    → lt_int b.length (pos (2 ^ 28)) ≡ true
    → lt_int b.precision (pos (2 ^ 31)) ≡ true
    → (build max_precision b ≡ ok t) ↔ (
        ((b.physical_type ≡ fixed_len_byte_array) → le_int (pos 0) b.length ≡ true)
        × IsAnnotated HoldsDigits b.logical_type b
        × (t ≡ type_of b))
build_lem b t small digits_small =
    let general = build_iff max_precision b t in
    let same : (digits : ℕ)
        → 0 < digits
        → b.precision ≡ pos digits
        → le_int (pos 0) b.length ≡ true
        → UpTo max_precision b.length digits ↔ HoldsDigits b.length digits =
      λ digits some_digits d from_zero.
        limit_int b.length digits small from_zero some_digits
          (subst (λ z. lt_int z (pos (2 ^ 31)) ≡ true) d digits_small) in
    (
      λ h.
          let (from_zero, annotated, made) = general.0 h in
          (
            from_zero,
            IsAnnotated-map (UpTo max_precision) HoldsDigits b.logical_type b
                (λ digits some_digits d fixed. (same digits some_digits d (from_zero fixed)).0)
                annotated,
            made,
          ),
      λ (from_zero, annotated, made). general.1 (
        from_zero,
        IsAnnotated-map HoldsDigits (UpTo max_precision) b.logical_type b
            (λ digits some_digits d fixed. (same digits some_digits d (from_zero fixed)).1)
            annotated,
        made,
      ),
    )
