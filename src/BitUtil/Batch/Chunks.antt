-- ===== src/BitUtil/Batch/Chunks.antt =====
-- src/util/bit_util.rs: the loop of `BitReader::get_batch` that calls `unpack32`.
use parquet_rs.BitUtil.Batch.{get_chunks}
use parquet_rs.BitUtil.Batch.Fields.{fields, fields-append, Ready, store_all-fields}
use parquet_rs.BitUtil.Batch.Words.{unpack32-fields}
use parquet_rs.BitUtil.Reader.{BitReader}
use parquet_rs.Prelude.{
  ℕ, zero, suc, ◌+◌, ◌*◌, ◌≤◌, ◌<◌, List, [], ◌++◌, length, take, drop, drop-drop, length-take,
  length-drop, All, All-take, All-drop, Outcome, ok, ◌>>=◌, leb, leb→le, Bool-cases, true, inl, inr,
  ◌≡◌, ap, ap₂, ◌∙◌, arith,
}
use parquet_rs.Prelude.Bytes.{IsByte}

-- The reader after `c` calls of `unpack32`; its buffered bits are not loaded again.
abbrev pub skipped_chunks : ℕ → ℕ → BitReader → BitReader
skipped_chunks n c r = record r { byte_offset = r.byte_offset + 4 * n * c }

abbrev outcome : List ℕ → List ℕ → BitReader → Outcome (List ℕ × (List ℕ × BitReader))
outcome vs left r = ok (vs, (left, r))

module _ (size_of n : ℕ) (word : n ≤ 32) (typed : n ≤ 8 * size_of) where
  abbrev pub Chunked : ℕ → List ℕ → BitReader → ℕ → Type 0
  Chunked fuel olds r c =
      (get_chunks fuel size_of n (drop r.byte_offset r.buffer) olds r
        ≡ ok (
          fields r.buffer n (32 * c) (8 * r.byte_offset),
          (drop (32 * c) olds, skipped_chunks n c r),
        ))
      × (32 * c ≤ length olds)
      × (length olds < 32 * c + 32)

  no_chunk :
      (olds : List ℕ) (r : BitReader)
      → outcome [] olds r
        ≡ ok (
          fields r.buffer n (32 * 0) (8 * r.byte_offset),
          (drop (32 * 0) olds, skipped_chunks n 0 r),
        )
  no_chunk olds r =
      ap (λ (b : ℕ). outcome [] olds (record r { byte_offset = b }))
        (let e : r.byte_offset ≡ r.byte_offset + 4 * n * 0 = omega arith in e)

  -- One more chunk in front of `c` others.
  module _ (olds : List ℕ) (r : BitReader) (c : ℕ) where
    next : BitReader
    next = record r { byte_offset = r.byte_offset + 4 * n }

    join_fields :
        fields r.buffer n 32 (8 * r.byte_offset)
          ++ fields r.buffer n (32 * c) (8 * (r.byte_offset + 4 * n))
        ≡ fields r.buffer n (32 * suc c) (8 * r.byte_offset)
    join_fields =
        ap (λ (p : ℕ). fields r.buffer n 32 (8 * r.byte_offset) ++ fields r.buffer n (32 * c) p)
          (let e : 8 * (r.byte_offset + 4 * n) ≡ 8 * r.byte_offset + n * 32 = omega arith in e)
        ∙ fields-append r.buffer n 32 (32 * c) (8 * r.byte_offset)
        ∙ ap (λ (k : ℕ). fields r.buffer n k (8 * r.byte_offset))
            (let e : 32 + 32 * c ≡ 32 * suc c = omega arith in e)

    join_left : drop (32 * c) (drop 32 olds) ≡ drop (32 * suc c) olds
    join_left =
        drop-drop (32 * c) 32 olds
        ∙ ap (λ (k : ℕ). drop k olds) (let e : 32 + 32 * c ≡ 32 * suc c = omega arith in e)

    join_reader : skipped_chunks n c next ≡ skipped_chunks n (suc c) r
    unfolding next
    join_reader =
        ap (λ (b : ℕ). record r { byte_offset = b })
          (let e : r.byte_offset + 4 * n + 4 * n * c ≡ r.byte_offset + 4 * n * suc c =
              omega arith in
            e)

  -- What a round that unpacks does.
  get_chunks-suc :
      (fuel : ℕ) (olds : List ℕ) (r : BitReader)
      → All IsByte r.buffer
      → All (Ready size_of) olds
      → 32 ≤ length olds
      → get_chunks (suc fuel) size_of n (drop r.byte_offset r.buffer) olds r ≡ (
          get_chunks fuel size_of n
            (drop (r.byte_offset + 4 * n) r.buffer)
            (drop 32 olds)
            (next olds r 0)
          >>= λ (vs, (left, r2)). ok (fields r.buffer n 32 (8 * r.byte_offset) ++ vs, (left, r2)))
  unfolding get_chunks next
  get_chunks-suc fuel olds r bytes ready many =
      rw (leb_true, get_chunks, unpack32-fields r.buffer r.byte_offset n bytes word)
        (ap₂
          (λ (l xs : List ℕ).
            get_chunks fuel size_of n l (drop 32 olds)
              (record r { byte_offset = r.byte_offset + 4 * n })
            >>= λ (vs, (left, r2)). ok (xs ++ vs, (left, r2)))
          (drop-drop (4 * n) r.byte_offset r.buffer)
          (store_all-fields size_of n r.buffer 32 (8 * r.byte_offset) (take 32 olds)
            (All-take (Ready size_of) 32 olds ready) word typed
            (omega (arith, length-take 32 olds))))
    where
      leb_true : leb 32 (length olds) ≡ true
      leb_true = ground arith

  pub get_chunks_lem :
      (fuel : ℕ) (olds : List ℕ) (r : BitReader)
      → All IsByte r.buffer
      → All (Ready size_of) olds
      → length olds ≤ fuel
      → (c : ℕ) × Chunked fuel olds r c
  unfolding next
  get_chunks_lem zero olds r bytes ready enough =
      (0, (unfold get_chunks in no_chunk olds r, omega arith, omega (arith, enough)))
  get_chunks_lem (suc fuel) olds r bytes ready enough = elim (Bool-cases (leb 32 (length olds))) [
    | inr few ↦ (
      0,
      (unfold get_chunks in rw (few, get_chunks) (no_chunk olds r), omega arith, ground arith),
    )
    | inl many ↦
        let (c, (e, below, above)) =
          get_chunks_lem fuel (drop 32 olds) (next olds r 0) bytes
            (All-drop (Ready size_of) 32 olds ready)
            (omega (arith, length-drop 32 olds, leb→le 32 (length olds) many)) in
        (
          suc c,
          (
            get_chunks-suc fuel olds r bytes ready (leb→le 32 (length olds) many)
                ∙ ap
                    (λ m. m >>= λ (vs, (left, r2)).
                      ok (fields r.buffer n 32 (8 * r.byte_offset) ++ vs, (left, r2)))
                    e
                ∙ ap₂ (λ xs (p : List ℕ × BitReader). ok (xs, p)) (join_fields olds r c)
                    (ap₂ (λ (l : List ℕ) (b : BitReader). (l, b)) (join_left olds r c)
                      (join_reader olds r c)),
            omega (arith, below, length-drop 32 olds, leb→le 32 (length olds) many),
            omega (arith, above, length-drop 32 olds, leb→le 32 (length olds) many),
          ),
        )
  ]
