-- ===== src/BitUtil/Reader/GetValue.antt =====
-- src/util/bit_util.rs: `BitReader::get_value` reads a field of the bit string.
use parquet_rs.BitUtil.Reader.{BitReader, low_value, get_spilling, get_value}
use parquet_rs.BitUtil.Reader.Position.{IsValid, position, bits_from, reload_lem}
use parquet_rs.BitUtil.Scalar.{trailing_bits, wrapping_shl}
use parquet_rs.BitUtil.Scalar.Laws.{trailing_bits_lem}
use parquet_rs.Prelude.{
  ℕ, ◌+◌, ◌-◌, ◌*◌, ◌/◌, ◌%◌, ◌^◌, ◌≤◌, ◌<◌, min, List, Bool-cases, inl, inr, none, some, ok, ltb,
  ltb→lt, ltb→le, leb, leb→le, if◌then◌else◌, bit_or, ◌≡◌, refl, sym, ap, ap₂, ◌∙◌, arith,
  two_pow_pos, two_pow-add, two_pow_mono, bit_or_disjoint, mod_shift, shift_shift, mod_mod_pow,
  mod_parts,
}
use parquet_rs.Prelude.Bytes.{from_le}
use native.Mathlib.Decide.{dec_lt}
use native.Mathlib.Nat.{mod-eq_of_lt, mod-lt}

-- The field that `get_value` is meant to return.
abbrev pub field_at : List ℕ → ℕ → ℕ → ℕ
field_at bytes p num_bits = bits_from bytes p % 2 ^ num_bits

-- A shift of at most 64 that loses nothing, though the code shifts by `k % 64`.
wrapping_shl_lem : (y m k : ℕ) → y < 2 ^ m → m + k ≤ 64 → wrapping_shl y k ≡ y * 2 ^ k
wrapping_shl_lem y m k small fits = elim (dec_lt k 64) [
  | yes below ↦
      ap (λ (t : ℕ). y * 2 ^ t % 2 ^ 64) (let e : k % 64 ≡ k = omega arith in e)
      ∙ mod-eq_of_lt
          (grind (arith, small, two_pow-add m k, two_pow_mono (m + k) 64 fits, two_pow_pos k))
  | no all ↦
      let narrow : m ≡ 0 = omega arith in
      let empty : y ≡ 0 = omega (arith, small, ap (λ (t : ℕ). 2 ^ t) narrow) in
      rw empty (omega arith)
]

module _ (num_bits : ℕ) (r : BitReader) (valid : IsValid r) where
  -- The bits from the reader's byte on.
  abbrev here : ℕ
  here = bits_from r.buffer (8 * r.byte_offset)

  abbrev spare : ℕ
  spare = 64 - r.bit_offset

  sixty_four : 64 ≡ r.bit_offset + spare
  sixty_four = omega (arith, valid.pending)

  bits_from-position : bits_from r.buffer (position r) ≡ here / 2 ^ r.bit_offset
  bits_from-position = sym (shift_shift (from_le r.buffer) (8 * r.byte_offset) r.bit_offset)

  -- The buffered bits up to bit `k`.
  buffered_low : (k : ℕ) → trailing_bits r.buffered_values k ≡ here % 2 ^ min k 64
  buffered_low k =
      ap (λ (b : ℕ). trailing_bits b k) valid.loaded
      ∙ trailing_bits_lem (here % 2 ^ 64) k (omega arith)
      ∙ mod_mod_pow here (min k 64) 64 (omega arith)

  -- Inside the 64 buffered bits.
  module _ (inside : r.bit_offset + num_bits < 64) where
    low_inside : low_value num_bits r ≡ field_at r.buffer (position r) num_bits
    low_inside =
        ap (λ (t : ℕ). t / 2 ^ r.bit_offset)
          (buffered_low (r.bit_offset + num_bits)
            ∙ ap (λ (k : ℕ). here % 2 ^ k)
                (let e : min (r.bit_offset + num_bits) 64 ≡ r.bit_offset + num_bits =
                    omega (arith, inside) in
                  e))
        ∙ mod_shift here r.bit_offset num_bits
        ∙ ap (λ (t : ℕ). t % 2 ^ num_bits) (sym bits_from-position)

  -- Past them: what is left of the buffered bits is the low part of the field, and the rest is at
  -- the bottom of the next eight bytes.
  module _ (wide : 64 ≤ r.bit_offset + num_bits) (few : num_bits ≤ 64) where
    low_wide : low_value num_bits r ≡ here / 2 ^ r.bit_offset % 2 ^ spare
    low_wide =
        ap (λ (t : ℕ). t / 2 ^ r.bit_offset)
          (buffered_low (r.bit_offset + num_bits)
            ∙ ap (λ (k : ℕ). here % 2 ^ k)
                (let e : min (r.bit_offset + num_bits) 64 ≡ r.bit_offset + spare =
                    omega (arith, wide, valid.pending) in
                  e))
        ∙ mod_shift here r.bit_offset spare

    abbrev over : ℕ
    over = r.bit_offset + num_bits - 64

    abbrev next : ℕ
    next = bits_from r.buffer (8 * (r.byte_offset + 8))

    next_lem : next ≡ here / 2 ^ r.bit_offset / 2 ^ spare
    next_lem =
        ap (bits_from r.buffer)
          (let e : 8 * (r.byte_offset + 8) ≡ 8 * r.byte_offset + 64 = omega arith in e)
        ∙ sym (shift_shift (from_le r.buffer) (8 * r.byte_offset) 64)
        ∙ ap (λ (k : ℕ). here / 2 ^ k) sixty_four
        ∙ sym (shift_shift here r.bit_offset spare)

    high_lem :
        wrapping_shl (trailing_bits (next % 2 ^ 64) over) (num_bits - over)
        ≡ here / 2 ^ r.bit_offset / 2 ^ spare % 2 ^ over * 2 ^ spare
    high_lem =
        ap₂ wrapping_shl
          (trailing_bits_lem (next % 2 ^ 64) over (omega arith)
            ∙ mod_mod_pow next (min over 64) 64 (omega arith)
            ∙ ap₂ (λ (x k : ℕ). x % 2 ^ k) next_lem
                (let e : min over 64 ≡ over = omega (arith, few, valid.pending) in e))
          (let e : num_bits - over ≡ spare = omega (arith, wide, few, valid.pending) in e)
        ∙ wrapping_shl_lem _ over spare (mod-lt _ (two_pow_pos over))
            (omega (arith, wide, few, valid.pending))

    joined_lem :
        bit_or
          (low_value num_bits r)
          (wrapping_shl (trailing_bits (next % 2 ^ 64) over) (num_bits - over))
        ≡ field_at r.buffer (position r) num_bits
    joined_lem =
        ap₂ bit_or low_wide high_lem
        ∙ bit_or_disjoint spare (here / 2 ^ r.bit_offset % 2 ^ spare) _
            (mod-lt _ (two_pow_pos spare))
        ∙ sym (mod_parts (here / 2 ^ r.bit_offset) spare over)
        ∙ ap₂ (λ (x k : ℕ). x % 2 ^ k) (sym bits_from-position)
            (let e : spare + over ≡ num_bits = omega (arith, wide, valid.pending) in e)

    abbrev moved : BitReader
    moved = record r {
      byte_offset = r.byte_offset + 8;
      bit_offset = over;
      buffered_values = next % 2 ^ 64;
    }

    module _ (size_of : ℕ) (room : position r + num_bits ≤ 8 * r.total_bytes)
        (typed : num_bits ≤ 8 * size_of) where
      get_spilled :
          get_value size_of num_bits r
          ≡ ok (some (field_at r.buffer (position r) num_bits % 2 ^ (8 * size_of)), moved)
      unfolding get_value get_spilling
      get_spilled = ground (
        arith,
        valid.pending,
        reload_lem (record r { byte_offset = r.byte_offset + 8; bit_offset = over }) valid.bytes
            valid.fits (omega (arith, room, wide)),
        joined_lem,
      )

      moved-IsValid : IsValid moved
      moved-IsValid = record {
        fits = valid.fits;
        bytes = valid.bytes;
        pending = omega (arith, few, valid.pending);
        room = omega (arith, room, wide);
        loaded = refl;
      }

-- A value of `num_bits` bits passes through a type of at least as many unchanged.
through_type :
    (x num_bits size_of : ℕ)
    → num_bits ≤ 8 * size_of
    → x % 2 ^ num_bits % 2 ^ (8 * size_of) ≡ x % 2 ^ num_bits
through_type x num_bits size_of h =
    mod-eq_of_lt
      (omega (arith, mod-lt x (two_pow_pos num_bits), two_pow_mono num_bits (8 * size_of) h))

module _ (size_of num_bits : ℕ) (r : BitReader) (valid : IsValid r) (few : num_bits ≤ 64)
    (typed : num_bits ≤ 8 * size_of) where
  get_empty :
      8 * r.total_bytes < position r + num_bits → get_value size_of num_bits r ≡ ok (none, r)
  unfolding get_value
  get_empty short = ground arith

  get_inside :
      r.bit_offset + num_bits < 64
      → position r + num_bits ≤ 8 * r.total_bytes
      → get_value size_of num_bits r
        ≡ ok (
          some (field_at r.buffer (position r) num_bits % 2 ^ (8 * size_of)),
          record r { bit_offset = r.bit_offset + num_bits },
        )
  unfolding get_value
  get_inside inside room = ground (arith, low_inside num_bits r valid inside)

-- `get_value` of 64 bits at most, into a type that is wide enough, never panics on a valid reader.
-- It answers `None`
-- exactly when fewer than `num_bits` bits are left, and changes nothing then. Otherwise it returns
-- the next `num_bits` bits of the buffer as a number and moves on by them.
pub get_value_lem :
    (size_of num_bits : ℕ) (r : BitReader)
    → IsValid r
    → num_bits ≤ 64
    → num_bits ≤ 8 * size_of
    → (if ltb (8 * r.total_bytes) (position r + num_bits)
        then get_value size_of num_bits r ≡ ok (none, r)
        else (r' : BitReader) × (get_value size_of num_bits r
            ≡ ok (some (field_at r.buffer (position r) num_bits), r'))
          × IsValid r'
          × (position r' ≡ position r + num_bits)
          × (r'.buffer ≡ r.buffer))
get_value_lem size_of num_bits r valid few typed =
    elim (Bool-cases (ltb (8 * r.total_bytes) (position r + num_bits))) [
      | inl short ↦ rw short (get_empty size_of num_bits r valid few typed (ltb→lt _ _ short))
      | inr enough ↦
          let room = ltb→le _ _ enough in
          let whole = through_type (bits_from r.buffer (position r)) num_bits size_of typed in
          rw enough (elim (Bool-cases (leb 64 (r.bit_offset + num_bits))) [
            | inl wide ↦
                let b = leb→le _ _ wide in
                (
                  moved num_bits r valid b few,
                  get_spilled num_bits r valid b few size_of room typed
                      ∙ ap (λ (x : ℕ). ok (some x, moved num_bits r valid b few)) whole,
                  moved-IsValid num_bits r valid b few size_of room typed,
                  omega (arith, b),
                  refl,
                )
            | inr inside ↦
                let b : r.bit_offset + num_bits < 64 = ground arith in
                let r' : BitReader = record r { bit_offset = r.bit_offset + num_bits } in
                (
                  r',
                  get_inside size_of num_bits r valid few typed b room
                      ∙ ap (λ (x : ℕ). ok (some x, r')) whole,
                  record {
                    fits = valid.fits;
                    bytes = valid.bytes;
                    pending = b;
                    room = omega arith;
                    loaded = valid.loaded;
                  },
                  omega arith,
                  refl,
                )
          ])
    ]
