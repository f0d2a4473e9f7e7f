-- ===== src/BitPacking/Reference.antt =====
-- The loop that src/util/bit_packing.rs unrolls: value `i` starts at bit `n * i`, in word
-- `n * i / 32`, and takes the next word too when it does not end in that one.
use native.Mathlib.Nat.{div-div-eq-div-mul}
use parquet_rs.Prelude.{
  ℕ, zero, suc, ◌+◌, ◌-◌, ◌*◌, ◌/◌, ◌%◌, ◌^◌, ◌≤◌, ◌<◌, List, ◌∷◌, map, range, bit_or, ltb, ◌==◌,
  if◌then◌else◌, Bool-cases, inl, inr, ◌≡◌, refl, sym, ap, ap₂, ◌∙◌, arith, two_pow-add,
}
use parquet_rs.BitPacking.Word.{Buf, ◌>>>◌, ◌<<<◌}
use parquet_rs.BitPacking.Stream.{
  stream, field, IsU32Buf, advance, advance_lem, stream-drop, field_inside, field_top,
  field_straddle,
}

-- `n` bits from bit `s` of word `q`.
abbrev pub value_at : ℕ → ℕ → ℕ → Buf → ℕ
value_at n q s w =
    if ltb (s + n) 32
    then (w q >>> s) % 2 ^ n
    else if s + n == 32
    then w q >>> s
    else bit_or (w q >>> s) ((w (q + 1) % 2 ^ (s + n - 32)) <<< (n - (s + n - 32)))

abbrev pub loop_value : ℕ → Buf → ℕ → ℕ
loop_value n w i = value_at n (n * i / 32) (n * i % 32) w

abbrev pub loop : ℕ → Buf → List ℕ
loop n w = map (loop_value n w) (range 0 32)

-- The values as the specification gives them.
abbrev pub spec : ℕ → Buf → List ℕ
spec n w = map (λ i. field (stream n w) (n * i) n) (range 0 32)

field-at : (x q s n : ℕ) → field x (32 * q + s) n ≡ field (x / 2 ^ (32 * q)) s n
field-at x q s n =
    ap (λ (t : ℕ). x / t % 2 ^ n) (two_pow-add (32 * q) s)
    ∙ ap (λ (t : ℕ). t % 2 ^ n) (sym (div-div-eq-div-mul x (2 ^ (32 * q)) (2 ^ s)))

-- The words from word `q` on, when `r` more follow it.
tail_field :
    (n q s r : ℕ) (w : Buf)
    → IsU32Buf w
    → field (stream (q + suc r) w) (32 * q + s) n
      ≡ field (w q + 2 ^ 32 * stream r (λ j. advance q w (suc j))) s n
tail_field n q s r w h =
    field-at (stream (q + suc r) w) q s n
    ∙ ap (λ (t : ℕ). field t s n) (stream-drop q (suc r) (q + suc r) w h refl)
    ∙ ap (λ (t : ℕ). field (t + 2 ^ 32 * stream r (λ j. advance q w (suc j))) s n) first
  where
    first : advance q w 0 ≡ w q
    first = advance_lem q 0 w ∙ ap w (omega arith)

straddle_lem :
    (n q s r : ℕ) (w : Buf)
    → IsU32Buf w
    → n ≤ 32
    → s < 32
    → 32 < s + n
    → s + n ≤ 32 * suc r
    → bit_or (w q >>> s) ((w (q + 1) % 2 ^ (s + n - 32)) <<< (n - (s + n - 32)))
      ≡ field (stream (q + suc r) w) (32 * q + s) n
straddle_lem n q s zero w h hn hs wide fits = absurd (omega arith)
straddle_lem n q s (suc r) w h hn hs wide fits =
    ap₂ (λ (b c : ℕ). bit_or (w q >>> s) ((b % 2 ^ (s + n - 32)) <<< c)) (sym second) (omega arith)
    ∙ sym (
        field_straddle (w q) (advance q w 1) rest s (32 - s) (s + n - 32) (omega arith)
          (omega arith) (h q))
    ∙ ap (λ (t : ℕ). field (w q + 2 ^ 32 * (advance q w 1 + 2 ^ 32 * rest)) s t) (omega arith)
    ∙ sym (tail_field n q s (suc r) w h)
  where
    rest : ℕ
    rest = stream r (λ j. advance q w (suc (suc j)))

    second : advance q w 1 ≡ w (q + 1)
    second = advance_lem q 1 w

-- One value, at a position where it lies inside the words.
value_at_lem :
    (n q s r : ℕ) (w : Buf)
    → IsU32Buf w
    → n ≤ 32
    → s < 32
    → s + n ≤ 32 * suc r
    → value_at n q s w ≡ field (stream (q + suc r) w) (32 * q + s) n
value_at_lem n q s r w h hn hs fits = elim (Bool-cases (ltb (s + n) 32)) [
  | inl inside ↦ rw inside (sym (tail_field n q s r w h ∙ field_inside (w q) _ s n (ground arith)))
  | inr out ↦ rw out (elim (Bool-cases (s + n == 32)) [
    | inl top ↦ rw top (sym (tail_field n q s r w h ∙ field_top (w q) _ s n (ground arith) (h q)))
    | inr across ↦ rw across (straddle_lem n q s r w h hn hs (ground arith) fits)
  ])
]

map-range_ext :
    (f g : ℕ → ℕ) (start n : ℕ)
    → ((i : ℕ) → start ≤ i → i < start + n → f i ≡ g i)
    → map f (range start n) ≡ map g (range start n)
map-range_ext f g start zero h = refl
map-range_ext f g start (suc n) h =
    ap₂ ◌∷◌ (h start (omega arith) (omega arith))
      (map-range_ext f g (suc start) n (λ i p q. h i (omega arith) (omega arith)))

loop_value_lem :
    (n i : ℕ) (w : Buf)
    → IsU32Buf w
    → 0 < n
    → n ≤ 32
    → i < 32
    → loop_value n w i ≡ field (stream n w) (n * i) n
loop_value_lem n i w h pos hn hi =
    value_at_lem n (n * i / 32) (n * i % 32) (n - n * i / 32 - 1) w h hn (omega arith) fits
    ∙ ap₂ (λ (k p : ℕ). field (stream k w) p n) (omega (arith, before)) (omega arith)
  where
    before : n * i + n ≤ 32 * n
    before = grind arith

    fits : n * i % 32 + n ≤ 32 * suc (n - n * i / 32 - 1)
    fits = omega (arith, before)

-- The loop over word boundaries reads the fields of the stream.
pub loop-eq-spec : (n : ℕ) (w : Buf) → IsU32Buf w → 0 < n → n ≤ 32 → loop n w ≡ spec n w
loop-eq-spec n w h pos hn =
    map-range_ext (loop_value n w) (λ i. field (stream n w) (n * i) n) 0 32
      (λ i p q. loop_value_lem n i w h pos hn q)
