-- ===== src/Basic/Texts/RoundTrip.antt =====
-- src/basic.rs: the texts of `Display` are those that `FromStr` reads, and no others but one.
use Prim.Native.String.{String}
use text.Mathlib.Text.{◌==◌}
use text.Mathlib.TextEquality.{eq_iff}
use parquet_rs.Prelude.{
  err, general, ◌≡◌, refl, ◌∙◌, sym, ap, ◌↔◌, ◌⊎◌, inl, inr, List, [], ◌∷◌, ok, Bool-cases, subst,
  arith,
}
use parquet_rs.Basic.{PhysicalType, LogicalType, Repetition, byte_array}
use parquet_rs.Basic.Texts.{
  match_arms, physical_type_to_string, physical_type_arms, physical_type_from_str,
  logical_type_to_string, logical_type_arms, logical_type_from_str, repetition_to_string,
  repetition_arms, repetition_from_str,
}

-- What each arm of a match on a text says of its text and its value.
abbrev EachArm {ℓ} : {A : Type ℓ} → (String → A → Type 0) → List (String × A) → Type 0
EachArm P [] = Unit
EachArm P ((name, value) ∷ arms) = P name value × EachArm P arms

match_arms_lem {ℓ} :
    {A : Type ℓ} (P : String → A → Type 0) (s : String) (v : A) (arms : List (String × A))
    → EachArm P arms
    → match_arms s arms ≡ ok v
    → P s v
unfolding match_arms
match_arms_lem P s v [] each h = cc h
match_arms_lem P s v ((name, value) ∷ arms) (this, each) h = elim (Bool-cases (name == s)) [
  | inl e ↦
      let named : name ≡ s = (eq_iff name s).0 e in
      let valued : value ≡ v = ground arith in
      subst (P s) valued (subst (λ n. P n value) named this)
  | inr e ↦
      let rest : match_arms s arms ≡ ok v = ground arith in match_arms_lem P s v arms each rest
]

pub physical_type_from_str-to_string :
    (t : PhysicalType) → physical_type_from_str (physical_type_to_string t) ≡ ok t
unfolding physical_type_from_str physical_type_to_string match_arms physical_type_arms
physical_type_from_str-to_string PhysicalType.boolean = refl
physical_type_from_str-to_string PhysicalType.int32 = refl
physical_type_from_str-to_string PhysicalType.int64 = refl
physical_type_from_str-to_string PhysicalType.int96 = refl
physical_type_from_str-to_string PhysicalType.float = refl
physical_type_from_str-to_string PhysicalType.double = refl
physical_type_from_str-to_string PhysicalType.byte_array = refl
physical_type_from_str-to_string PhysicalType.fixed_len_byte_array = refl

pub logical_type_from_str-to_string :
    (t : LogicalType) → logical_type_from_str (logical_type_to_string t) ≡ ok t
unfolding logical_type_from_str logical_type_to_string match_arms logical_type_arms
logical_type_from_str-to_string LogicalType.none_type = refl
logical_type_from_str-to_string LogicalType.utf8 = refl
logical_type_from_str-to_string LogicalType.map = refl
logical_type_from_str-to_string LogicalType.map_key_value = refl
logical_type_from_str-to_string LogicalType.list = refl
logical_type_from_str-to_string LogicalType.enum = refl
logical_type_from_str-to_string LogicalType.decimal = refl
logical_type_from_str-to_string LogicalType.date = refl
logical_type_from_str-to_string LogicalType.time_millis = refl
logical_type_from_str-to_string LogicalType.time_micros = refl
logical_type_from_str-to_string LogicalType.timestamp_millis = refl
logical_type_from_str-to_string LogicalType.timestamp_micros = refl
logical_type_from_str-to_string LogicalType.uint_8 = refl
logical_type_from_str-to_string LogicalType.uint_16 = refl
logical_type_from_str-to_string LogicalType.uint_32 = refl
logical_type_from_str-to_string LogicalType.uint_64 = refl
logical_type_from_str-to_string LogicalType.int_8 = refl
logical_type_from_str-to_string LogicalType.int_16 = refl
logical_type_from_str-to_string LogicalType.int_32 = refl
logical_type_from_str-to_string LogicalType.int_64 = refl
logical_type_from_str-to_string LogicalType.json = refl
logical_type_from_str-to_string LogicalType.bson = refl
logical_type_from_str-to_string LogicalType.interval = refl

pub repetition_from_str-to_string :
    (t : Repetition) → repetition_from_str (repetition_to_string t) ≡ ok t
unfolding repetition_from_str repetition_to_string match_arms repetition_arms
repetition_from_str-to_string Repetition.required = refl
repetition_from_str-to_string Repetition.optional = refl
repetition_from_str-to_string Repetition.repeated = refl

logical_type_from_str_iff :
    (s : String) (t : LogicalType)
    → (logical_type_from_str s ≡ ok t) ↔ (logical_type_to_string t ≡ s)
logical_type_from_str_iff s t = (
  unfold logical_type_from_str logical_type_arms logical_type_to_string in
      match_arms_lem (λ name value. logical_type_to_string value ≡ name) s t logical_type_arms
        search,
  λ e. ap logical_type_from_str (sym e) ∙ logical_type_from_str-to_string t,
)

-- A text is one of the arms, or an error.
match_arms-cases {ℓ} :
    {A : Type ℓ} (s : String) (arms : List (String × A))
    → (match_arms s arms ≡ err general) ⊎ ((a : A) × (match_arms s arms ≡ ok a))
unfolding match_arms
match_arms-cases s [] = inl refl
match_arms-cases s ((name, value) ∷ arms) = elim (Bool-cases (name == s)) [
  | inl same ↦ inr (value, rw same refl)
  | inr other ↦ rw other (match_arms-cases s arms)
]

other_logical_type :
    (s : String)
    → ((t : LogicalType) → ¬ (logical_type_to_string t ≡ s))
    → logical_type_from_str s ≡ err general
unfolding logical_type_from_str
other_logical_type s none_of = elim (match_arms-cases s logical_type_arms) [
  | inl error ↦ error
  | inr (t, read) ↦ absurd (none_of t ((logical_type_from_str_iff s t).0 read))
]

-- `FromStr` reads a text as a logical type exactly if the text is that type's `Display`: each logical
-- type is read back from its own text, and every text that is the `Display` of none is an error, the
-- general one, and no panic.
pub logical_type_from_str_lem :
    (s : String)
    → ((t : LogicalType) → (logical_type_from_str s ≡ ok t) ↔ (logical_type_to_string t ≡ s))
      × (((t : LogicalType) → ¬ (logical_type_to_string t ≡ s))
          → logical_type_from_str s ≡ err general)
logical_type_from_str_lem s = (logical_type_from_str_iff s, other_logical_type s)

-- `FromStr` reads a text as a repetition exactly if the text is that repetition's `Display`.
pub repetition_from_str_lem :
    (s : String) (t : Repetition) → (repetition_from_str s ≡ ok t) ↔ (repetition_to_string t ≡ s)
repetition_from_str_lem s t = (
  unfold repetition_from_str repetition_arms repetition_to_string in
      match_arms_lem (λ name value. repetition_to_string value ≡ name) s t repetition_arms search,
  λ e. ap repetition_from_str (sym e) ∙ repetition_from_str-to_string t,
)

binary : physical_type_from_str "BINARY" ≡ ok byte_array
unfolding physical_type_from_str physical_type_arms match_arms
binary = refl

-- `FromStr` reads a text as a physical type exactly if the text is that type's `Display`, or the
-- text is BINARY and the type is BYTE_ARRAY.
pub physical_type_from_str_lem :
    (s : String) (t : PhysicalType)
    → (physical_type_from_str s ≡ ok t)
      ↔ ((physical_type_to_string t ≡ s) ⊎ ((s ≡ "BINARY") × (t ≡ byte_array)))
physical_type_from_str_lem s t = (
  unfold physical_type_from_str physical_type_arms physical_type_to_string in
      match_arms_lem
        (λ name value.
          (physical_type_to_string value ≡ name) ⊎ ((name ≡ "BINARY") × (value ≡ byte_array)))
        s t physical_type_arms
        (
          inl refl,
          (
            inl refl,
            (
              inl refl,
              (inl refl, (inl refl, (inl refl, (inl refl, (inr (refl, refl), (inl refl, tt)))))),
            ),
          ),
        ),
  λ e. elim e [
    | inl own ↦ ap physical_type_from_str (sym own) ∙ physical_type_from_str-to_string t
    | inr (name, type) ↦ ap physical_type_from_str name ∙ binary ∙ ap ok (sym type)
  ],
)
