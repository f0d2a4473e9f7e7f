-- ===== src/BitUtil/Batch/Singles.antt =====
-- src/util/bit_util.rs: the two loops of `BitReader::get_batch` that call `get_value`.
use parquet_rs.BitUtil.Batch.{get_each, get_unaligned}
use parquet_rs.BitUtil.Batch.Fields.{fields}
use parquet_rs.BitUtil.Reader.{BitReader, get_value}
use parquet_rs.BitUtil.Reader.Position.{IsValid, position}
use parquet_rs.BitUtil.Reader.GetValue.{field_at, get_value_lem}
use parquet_rs.Prelude.{
  ℕ, suc, ◌+◌, ◌*◌, ◌≤◌, ◌<◌, List, [], ◌∷◌, length, drop, some, ok, ltb, ◌==◌, Bool-cases, false,
  inl, inr, ◌≡◌, refl, ap, ap₂, ◌∙◌, arith,
}

-- The reader after `k` values of `n` bits.
pub record Past (n k : ℕ) (r r' : BitReader) : Type 0 where
  pub valid : IsValid r'
  pub moved : position r' ≡ position r + n * k
  pub same_buffer : r'.buffer ≡ r.buffer

pub total_bytes_same :
    {n k : ℕ} {r r' : BitReader} → IsValid r → Past n k r r' → r'.total_bytes ≡ r.total_bytes
total_bytes_same valid p = omega (arith, valid.fits, p.valid.fits, ap length p.same_buffer)

pub Past-trans :
    {n k l : ℕ} {r r1 r2 : BitReader} → Past n k r r1 → Past n l r1 r2 → Past n (k + l) r r2
Past-trans a b = record {
  valid = b.valid;
  moved = omega (arith, a.moved, b.moved);
  same_buffer = b.same_buffer ∙ a.same_buffer;
}

pub Past-suc :
    {n k : ℕ} {r r1 r2 : BitReader} → Past n 1 r r1 → Past n k r1 r2 → Past n (suc k) r r2
Past-suc a b = record {
  valid = b.valid;
  moved = omega (arith, a.moved, b.moved);
  same_buffer = b.same_buffer ∙ a.same_buffer;
}

pub fields-Past :
    {n k : ℕ} {r r' : BitReader}
    → Past n k r r'
    → (l : ℕ) → fields r'.buffer n l (position r') ≡ fields r.buffer n l (position r + n * k)
fields-Past {n} p l = ap₂ (λ (b : List ℕ) (q : ℕ). fields b n l q) p.same_buffer p.moved

pub Past-none : (n : ℕ) (r : BitReader) → IsValid r → Past n 0 r r
Past-none n r valid = record { valid = valid; moved = omega arith; same_buffer = refl }

module _ (size_of n : ℕ) (word : n ≤ 32) (typed : n ≤ 8 * size_of) where
  pub get_next :
      (k : ℕ) (r : BitReader)
      → IsValid r
      → position r + n * suc k ≤ 8 * r.total_bytes
      → (r' : BitReader) × (get_value size_of n r
          ≡ ok (some (field_at r.buffer (position r) n), r'))
        × Past n 1 r r'
  get_next k r valid room =
      let enough : ltb (8 * r.total_bytes) (position r + n) ≡ false = ground arith in
      let (r', e, v, at, same) =
        rw enough at (get_value_lem size_of n r valid (omega arith) typed) in
      (r', e, record { valid = v; moved = omega (arith, at); same_buffer = same })

  pub get_each_lem :
      (olds : List ℕ) (r : BitReader)
      → IsValid r
      → position r + n * length olds ≤ 8 * r.total_bytes
      → (r' : BitReader) × (get_each size_of n olds r
          ≡ ok (fields r.buffer n (length olds) (position r), r'))
        × Past n (length olds) r r'
  unfolding get_each
  get_each_lem [] r valid room = (r, refl, Past-none n r valid)
  get_each_lem (old ∷ olds) r valid room =
      let (r1, e, p) = get_next (length olds) r valid room in
      let (r2, e2, p2) =
        get_each_lem olds r1 p.valid (omega (arith, p.moved, total_bytes_same valid p)) in
      (
        r2,
        rw (e, e2)
            (ap (λ (vs : List ℕ). ok (field_at r.buffer (position r) n ∷ vs, r2))
              (fields-Past p (length olds)
                ∙ ap (fields r.buffer n (length olds))
                    (let e' : position r + n * 1 ≡ position r + n = omega arith in e'))),
        Past-suc p p2,
      )

  -- The loop stops with the places used up or at a whole byte.
  pub get_unaligned_lem :
      (olds : List ℕ) (r : BitReader)
      → IsValid r
      → position r + n * length olds ≤ 8 * r.total_bytes
      → (k : ℕ) × (r' : BitReader) × (get_unaligned size_of n olds r
          ≡ ok (fields r.buffer n k (position r), (drop k olds, r')))
        × Past n k r r'
        × (k ≤ length olds)
        × (k < length olds → r'.bit_offset ≡ 0)
  unfolding get_unaligned
  get_unaligned_lem [] r valid room =
      (0, r, refl, Past-none n r valid, omega arith, λ h. absurd (omega arith))
  get_unaligned_lem (old ∷ olds) r valid room = elim (Bool-cases (r.bit_offset == 0)) [
    | inl flat ↦
        (0, r, rw (flat, get_unaligned) refl, Past-none n r valid, omega arith, λ h. ground arith)
    | inr inside ↦
        let (r1, e, p) = get_next (length olds) r valid room in
        let (k, r2, e2, p2, few, stop) =
          get_unaligned_lem olds r1 p.valid (omega (arith, p.moved, total_bytes_same valid p)) in
        (
          suc k,
          r2,
          rw (inside, get_unaligned, e, e2)
              (ap (λ (vs : List ℕ). ok (field_at r.buffer (position r) n ∷ vs, (drop k olds, r2)))
                (fields-Past p k
                  ∙ ap (fields r.buffer n k)
                      (let e' : position r + n * 1 ≡ position r + n = omega arith in e'))),
          Past-suc p p2,
          omega (arith, few),
          λ h. stop (omega (arith, h)),
        )
  ]
