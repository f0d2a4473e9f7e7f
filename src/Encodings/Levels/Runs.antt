-- ===== src/Encodings/Levels/Runs.antt =====
-- src/encodings/levels.rs: levels through the RLE encoder and back through the RLE decoder.
use parquet_rs.Encodings.Levels.{as_u64, level_width}
use parquet_rs.Encodings.Levels.Width.{as_u64_lem, level_width-le, level_width_lem}
use parquet_rs.Encodings.Levels.Encoder.{put_rle, put_and_flush}
use parquet_rs.Encodings.Levels.Decoder.{get_rle}
use parquet_rs.Encodings.Rle.Encoder.{
  RleEncoder, encoder_from_buf, min_buffer_size, max_buffer_size, put, flush, consume,
}
use parquet_rs.Encodings.Rle.Decoder.{RleDecoder, new, set_data}
use parquet_rs.Encodings.Rle.Format.{Run, IsRun, runs_bytes, runs_values}
use parquet_rs.Encodings.Rle.SetData.{set_data_lem}
use parquet_rs.Encodings.Rle.Batch.{get_batch}
use parquet_rs.Encodings.Rle.BatchWhole.{get_batch-runs_values}
use parquet_rs.Encodings.Rle.Encode.State.{Encoding}
use parquet_rs.Encodings.Rle.Encode.Ended.{front_empty}
use parquet_rs.Encodings.Rle.Encode.Whole.{
  IsEncoded, put_lem, flush_lem, consume-flush, encoder_from_buf_lem,
}
use parquet_rs.BitUtil.Batch.Fields.{Ready}
use parquet_rs.Prelude.Bytes.{IsByte}
use parquet_rs.Prelude.{
  ℕ, ◌+◌, ◌-◌, ◌^◌, ◌≤◌, ◌<◌, min, List, [], ◌∷◌, ◌++◌, length, length-append, length-take,
  length-drop, append_assoc, append_nil, take, drop, take_append_exact, replicate, All, All-take,
  some, true, ok, ◌≡◌, refl, sym, ap, ap₂, ◌∙◌, subst, arith, bind_to,
}

pub All-Ready : (l : List ℕ) → All (Ready 2) l
All-Ready [] = tt
All-Ready (x ∷ l) = (λ h. absurd (omega (arith, h)), All-Ready l)

module _ (max_level : ℕ) (h : max_level < 2 ^ 15) where
  abbrev n : ℕ
  n = level_width max_level

  put_rle_lem :
      (head : List ℕ) (total : ℕ) (vs xs : List ℕ) (k : ℕ) (e : RleEncoder)
      → Encoding head n total vs e
      → All (λ v. v ≤ max_level) xs
      → length vs + length xs ≤ total
      → total < 2 ^ 32
      → (e' : RleEncoder) × (put_rle xs k e ≡ ok (k + length xs, e'))
        × Encoding head n total (vs ++ xs) e'
  unfolding put_rle
  put_rle_lem head total vs [] k e s small within limit = (
    e,
    ap (λ (j : ℕ). ok (j, e)) (let q : k ≡ k + 0 = omega arith in q),
    subst (λ l. Encoding head n total l e) (sym (append_nil vs)) s,
  )
  put_rle_lem head total vs (x ∷ xs) k e s small within limit =
      let (e1, first, s1) =
        put_lem head n total vs x e s (level_width_lem max_level h x small.0)
          (omega (arith, within)) limit in
      let (e2, others, s2) =
        put_rle_lem head total (vs ++ x ∷ []) xs (k + 1) e1 s1 small.1
          (omega (arith, within, length-append vs (x ∷ []))) limit in
      (
        e2,
        bind_to (put (as_u64 x) e) (true, e1) _
            (ap (λ v. put v e) (as_u64_lem x (omega (arith, small.0, h))) ∙ first)
            (others
              ∙ ap (λ (j : ℕ). ok (j, e2))
                  (let q : k + 1 + length xs ≡ k + length (x ∷ xs) = omega arith in q)),
        subst (λ l. Encoding head n total l e2) (append_assoc vs (x ∷ []) xs) s2,
      )

  -- What an encoder hands over that was given the levels and was flushed.
  pub put_and_flush_lem :
      (levels buf : List ℕ) (start : ℕ)
      → All (λ v. v ≤ max_level) levels
      → length levels < 2 ^ 32
      → All IsByte buf
      → start < length buf
      → min_buffer_size n ≤ length buf
      → start + max_buffer_size n (length levels) ≤ length buf
      → (e : RleEncoder) × (e' : RleEncoder) × (encoder_from_buf n buf start ≡ ok e)
        × (put_and_flush levels e ≡ ok (length levels, e'))
        × IsEncoded (take start buf) n (length levels) levels (consume e')
  unfolding put_and_flush
  put_and_flush_lem levels buf start small few bytes inside large room =
      let (e, made, s) =
        encoder_from_buf_lem n (length levels) buf start (omega (arith, level_width-le max_level h))
          bytes inside large room in
      let (e1, taken, s1) =
        put_rle_lem (take start buf) (length levels) [] levels 0 e s small (omega arith) few in
      let (e2, done, width, f) =
        flush_lem (take start buf) n (length levels) levels e1 s1 (omega arith) few in
      (
        e,
        e2,
        made,
        bind_to (put_rle levels 0 e) (length levels, e1) _
            (taken
              ∙ ap (λ (j : ℕ). ok (j, e1))
                  (let q : 0 + length levels ≡ length levels = omega arith in q))
            (bind_to (flush e1) e2 _ done refl),
        consume-flush (take start buf) n (length levels) levels e2 (All-take IsByte start buf bytes)
            width f,
      )

  module _ (levels : List ℕ) (runs : List Run) (padding : ℕ) (are_runs : All (IsRun n) runs)
      (values : runs_values runs ≡ levels ++ replicate padding 0) (places : List ℕ)
      (same : length places ≡ length levels) where
    abbrev k_places : List ℕ
    k_places = take (min (length levels) (length places)) places

    k_places_long : length k_places ≡ length levels
    k_places_long = omega (arith, length-take (min (length levels) (length places)) places, same)

    all_read :
        (k : ℕ)
        → k ≡ length levels
        → take k (runs_values runs)
            ++ (drop k k_places ++ drop (min (length levels) (length places)) places)
          ≡ levels
    all_read k q =
        let none_over : drop k k_places ≡ [] =
          front_empty (drop k k_places) (omega (arith, length-drop k k_places, k_places_long, q)) in
        let none_left : drop (min (length levels) (length places)) places ≡ [] =
          front_empty (drop (min (length levels) (length places)) places)
            (omega (arith, length-drop (min (length levels) (length places)) places, same)) in
        ap₂ (λ a b. a ++ b) (ap₂ take q values ∙ take_append_exact levels (replicate padding 0))
          (ap₂ (λ a b. a ++ b) none_over none_left)
        ∙ append_nil levels

    pub get_rle_lem :
        (d : RleDecoder) × (d' : RleDecoder) × (set_data (runs_bytes n runs) (new n) ≡ ok d)
        × (get_rle (some (length levels)) places d ≡ ok (length levels, (levels, (0, d'))))
    unfolding get_rle
    get_rle_lem =
        let (d, ready, state) =
          set_data_lem n runs (omega (arith, level_width-le max_level h)) are_runs in
        let (k, d', counted, read, state') =
          get_batch-runs_values n 2 k_places (runs_values runs) d
            (omega (arith, level_width-le max_level h)) (omega (arith, level_width-le max_level h))
            (omega arith) (All-Ready k_places) state in
        let all : k ≡ length levels = omega (
          arith,
          counted,
          k_places_long,
          ap length values,
          length-append levels (replicate padding 0),
        ) in
        (
          d,
          d',
          ready,
          bind_to (get_batch 2 k_places d) _ _ read (
              ap (λ l. ok (k, (l, (length levels - k, d'))))
                (append_assoc (take k (runs_values runs)) (drop k k_places)
                    (drop (min (length levels) (length places)) places)
                  ∙ all_read k all)
              ∙ ap₂ (λ (a b : ℕ). ok (a, (levels, (b, d')))) all
                  (let q : length levels - k ≡ 0 = omega (arith, all) in q)),
        )
