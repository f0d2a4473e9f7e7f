-- ===== src/BitUtil/Vlq/Get.antt =====
-- src/util/bit_util.rs: `get_vlq_int` reads the bytes of the format back.
use parquet_rs.BitUtil.Vlq.{take_group, get_vlq_loop, get_vlq_int}
use parquet_rs.BitUtil.Vlq.Format.{vlq_bytes, vlq, vlq_bytes_last, vlq_bytes_more}
use parquet_rs.BitUtil.Reader.{BitReader, get_aligned}
use parquet_rs.BitUtil.Reader.Position.{IsValid}
use parquet_rs.BitUtil.Reader.Aligned.{aligned, past, get_aligned_enough, past-IsValid}
use parquet_rs.BitUtil.Scalar.{ceil}
use parquet_rs.Prelude.{
  ℕ, zero, suc, ◌+◌, ◌*◌, ◌/◌, ◌%◌, ◌^◌, ◌≤◌, ◌<◌, List, ◌∷◌, ◌++◌, length, length-drop, take, drop,
  drop-drop, Option, some, Outcome, ok, bit_or, bit_and-0x7f, bit_and-0x80, bit_or_disjoint, ◌≡◌,
  refl, sym, ap, ◌∙◌, arith, two_pow-add,
}
use parquet_rs.Prelude.Bytes.{from_le}
use native.Mathlib.Decide.{dec_lt}
use native.Mathlib.Nat.{mod-eq_of_lt, pow-succ', div-add-mod}

-- What is still to be read, from the next whole byte on.
abbrev pub unread : BitReader → List ℕ
unread r = drop (aligned r) r.buffer

-- The reader after bytes that `rest` follows.
pub record Got (rest : List ℕ) (r r' : BitReader) : Type 0 where
  pub valid : IsValid r'
  pub same_buffer : r'.buffer ≡ r.buffer
  pub full_bytes : r'.bit_offset ≡ 0
  pub left : unread r' ≡ rest

module _ (byte : ℕ) (rest : List ℕ) (r : BitReader) (valid : IsValid r)
    (front : unread r ≡ byte ∷ rest) where
  enough : aligned r + 1 ≤ r.total_bytes
  enough = omega (arith, length-drop (aligned r) r.buffer, ap length front, valid.fits)

  get_byte : get_aligned 1 r ≡ ok (some byte, past 1 r)
  get_byte =
      get_aligned_enough 1 r valid enough
      ∙ ap (λ (x : ℕ). ok (some x, past 1 r))
          (ap (λ (l : List ℕ). from_le (take 1 l)) front ∙ first)
    where
      first : from_le (take 1 (byte ∷ rest)) ≡ byte
      first = unfold from_le in omega arith

  get_byte-Got : Got rest r (past 1 r)
  unfolding ceil
  get_byte-Got = record {
    valid = past-IsValid 1 r valid enough;
    same_buffer = refl;
    full_bytes = refl;
    left =
        ap (λ (k : ℕ). drop k r.buffer)
          (let e : aligned r + 1 + 0 ≡ aligned r + 1 = omega arith in e)
        ∙ sym (drop-drop 1 (aligned r) r.buffer)
        ∙ ap (drop 1) front;
  }

Got-trans :
    {rest rest' : List ℕ} {r r1 r2 : BitReader} → Got rest' r r1 → Got rest r1 r2 → Got rest r r2
Got-trans a b = record {
  valid = b.valid;
  same_buffer = b.same_buffer ∙ a.same_buffer;
  full_bytes = b.full_bytes;
  left = b.left;
}

-- Seven more bits on top of those below `shift`.
add_group :
    (acc g shift : ℕ)
    → shift ≤ 63
    → acc < 2 ^ shift
    → acc + g * 2 ^ shift < 2 ^ 64
    → bit_or acc (g * 2 ^ (shift % 64) % 2 ^ 64) ≡ acc + g * 2 ^ shift
add_group acc g shift h low fits =
    ap (bit_or acc) (
      ap (λ (k : ℕ). g * 2 ^ k % 2 ^ 64) (let e : shift % 64 ≡ shift = omega arith in e)
      ∙ mod-eq_of_lt (omega arith))
    ∙ bit_or_disjoint shift acc g low

-- One byte, the last one or one that others follow.
module _ (more : ℕ → ℕ → BitReader → Outcome (Option ℕ × BitReader)) (shift acc byte : ℕ)
    (r : BitReader) (early : shift ≤ 63) (low : acc < 2 ^ shift)
    (fits : acc + byte % 128 * 2 ^ shift < 2 ^ 64) where
  take_group_last :
      byte < 128 → take_group more shift acc byte r ≡ ok (some (acc + byte * 2 ^ shift), r)
  unfolding take_group
  take_group_last h = ground (
    arith,
    bit_and-0x7f byte,
    bit_and-0x80 byte,
    add_group acc (byte % 128) shift early low fits,
    mod-eq_of_lt h,
  )

  take_group_more :
      128 ≤ byte
      → byte < 256
      → take_group more shift acc byte r ≡ more (shift + 7) (acc + byte % 128 * 2 ^ shift) r
  unfolding take_group
  take_group_more h small =
      ground (
        arith,
        bit_and-0x7f byte,
        bit_and-0x80 byte,
        add_group acc (byte % 128) shift early low fits,
      )

get_vlq_loop-suc :
    (fuel shift acc byte : ℕ) (rest : List ℕ) (r : BitReader)
    → IsValid r
    → unread r ≡ byte ∷ rest
    → get_vlq_loop (suc fuel) shift acc r ≡ take_group (get_vlq_loop fuel) shift acc byte (past 1 r)
unfolding get_vlq_loop
get_vlq_loop-suc fuel shift acc byte rest r valid front = rw (get_byte byte rest r valid front)

-- The number read so far, with seven more bits, and what is left of `v`.
regroup :
    (v shift acc : ℕ) → acc + v % 128 * 2 ^ shift + v / 128 * 2 ^ (shift + 7) ≡ acc + v * 2 ^ shift
regroup v shift acc = omega (
  arith,
  ap (λ (t : ℕ). v / 128 * t) (two_pow-add shift 7),
  ap (λ (t : ℕ). t * 2 ^ shift) (div-add-mod v 128),
)

front_more :
    (k v : ℕ) (rest : List ℕ) (r : BitReader)
    → 128 ≤ v
    → unread r ≡ vlq_bytes (suc k) v ++ rest
    → unread r ≡ (v % 128 + 128) ∷ (vlq_bytes k (v / 128) ++ rest)
front_more k v rest r more front = front ∙ ap (λ (l : List ℕ). l ++ rest) (vlq_bytes_more k v more)

group_bound : (v shift : ℕ) → v % 128 * 2 ^ shift ≤ 127 * 2 ^ shift
group_bound v shift = grind arith

-- `v` is still to be read, and counts from bit `shift` on.
module _ (rest : List ℕ) where
  Reads : ℕ → ℕ → ℕ → ℕ → ℕ → BitReader → Type 0
  Reads k v shift acc fuel r =
      (r' : BitReader) × (get_vlq_loop (suc fuel) shift acc r ≡ ok (some (acc + v * 2 ^ shift), r'))
      × Got rest r r'

  last_byte-Reads :
      (k v shift acc fuel : ℕ) (r : BitReader)
      → IsValid r
      → v < 128
      → shift ≤ 63
      → acc < 2 ^ shift
      → acc + v * 2 ^ shift < 2 ^ 64
      → unread r ≡ vlq_bytes k v ++ rest
      → Reads k v shift acc fuel r
  unfolding Reads
  last_byte-Reads k v shift acc fuel r valid last early low fits front = (
    past 1 r,
    get_vlq_loop-suc fuel shift acc v rest r valid front'
        ∙ take_group_last (get_vlq_loop fuel) shift acc v (past 1 r) early low
            (omega (arith, fits, ap (λ (t : ℕ). t * 2 ^ shift) (mod-eq_of_lt last))) last,
    get_byte-Got v rest r valid front',
  )
    where
      front' : unread r ≡ v ∷ rest
      front' = front ∙ ap (λ (l : List ℕ). l ++ rest) (vlq_bytes_last k v last)

  inner_byte-Reads :
      (k v shift acc fuel : ℕ) (r : BitReader)
      → IsValid r
      → 128 ≤ v
      → shift + 7 ≤ 63
      → acc < 2 ^ shift
      → acc + v * 2 ^ shift < 2 ^ 64
      → unread r ≡ vlq_bytes (suc k) v ++ rest
      → Reads k (v / 128) (shift + 7) (acc + v % 128 * 2 ^ shift) fuel (past 1 r)
      → Reads (suc k) v shift acc (suc fuel) r
  unfolding Reads
  inner_byte-Reads k v shift acc fuel r valid more early low fits front (r', e, got) = (
    r',
    get_vlq_loop-suc (suc fuel) shift acc (v % 128 + 128) _ r valid front'
        ∙ take_group_more (get_vlq_loop (suc fuel)) shift acc (v % 128 + 128) (past 1 r)
            (omega arith) low (rw low_bits (omega (arith, regroup v shift acc))) (omega arith)
            (omega arith)
        ∙ ap (λ (t : ℕ). get_vlq_loop (suc fuel) (shift + 7) (acc + t * 2 ^ shift) (past 1 r))
            low_bits
        ∙ e
        ∙ ap (λ (x : ℕ). ok (some x, r')) (regroup v shift acc),
    Got-trans (get_byte-Got (v % 128 + 128) _ r valid front') got,
  )
    where
      front' : unread r ≡ (v % 128 + 128) ∷ (vlq_bytes k (v / 128) ++ rest)
      front' = front_more k v rest r more front

      low_bits : (v % 128 + 128) % 128 ≡ v % 128
      low_bits = omega arith

  get_vlq_loop_lem :
      (k v shift acc fuel : ℕ) (r : BitReader)
      → IsValid r
      → v < 128 ^ suc k
      → shift + 7 * k ≤ 63
      → acc < 2 ^ shift
      → acc + v * 2 ^ shift < 2 ^ 64
      → unread r ≡ vlq_bytes k v ++ rest
      → k ≤ fuel
      → Reads k v shift acc fuel r
  get_vlq_loop_lem zero v shift acc fuel r valid h early low fits front enough_fuel =
      last_byte-Reads zero v shift acc fuel r valid (omega arith) (omega arith) low fits front
  get_vlq_loop_lem (suc k) v shift acc zero r valid h early low fits front enough_fuel =
      absurd (omega arith)
  get_vlq_loop_lem (suc k) v shift acc (suc fuel) r valid h early low fits front enough_fuel =
      elim (dec_lt v 128) [
        | yes last ↦
            last_byte-Reads (suc k) v shift acc (suc fuel) r valid last (omega arith) low fits front
        | no more ↦
            inner_byte-Reads k v shift acc fuel r valid (omega arith) (omega arith) low fits front (
              get_vlq_loop_lem k (v / 128) (shift + 7) (acc + v % 128 * 2 ^ shift) fuel (past 1 r)
                (get_byte-Got _ _ r valid (front_more k v rest r (omega arith) front)).valid
                (omega (arith, pow-succ' 128 (suc k))) (omega arith)
                (omega (arith, two_pow-add shift 7, low, group_bound v shift))
                (omega (arith, regroup v shift acc))
                (get_byte-Got _ _ r valid (front_more k v rest r (omega arith) front)).left
                (omega arith))
      ]

-- `get_vlq_int` reads a `u64` that was written in the format: on a valid reader before the bytes
-- of `v` it returns `v`, never panics, and stands before what follows them.
pub get_vlq_int_lem :
    (v : ℕ) (rest : List ℕ) (r : BitReader)
    → IsValid r
    → v < 2 ^ 64
    → unread r ≡ vlq v ++ rest
    → (r' : BitReader) × (get_vlq_int r ≡ ok (some v, r')) × Got rest r r'
unfolding get_vlq_int Reads
get_vlq_int_lem v rest r valid small front =
    let (r', e, got) =
      get_vlq_loop_lem rest 9 v 0 0 10 r valid (omega arith) (omega arith) (omega arith)
        (omega arith) front (omega arith) in
    (r', e ∙ ap (λ (x : ℕ). ok (some x, r')) (let e' : 0 + v * 2 ^ 0 ≡ v = omega arith in e'), got)
