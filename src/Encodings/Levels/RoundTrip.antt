-- ===== src/Encodings/Levels/RoundTrip.antt =====
-- src/encodings/levels.rs: what `LevelEncoder` writes by RLE, `LevelDecoder` reads.
use parquet_rs.Basic.{Encoding}
use parquet_rs.Memory.{BufferPtr, content, range}
use parquet_rs.Memory as Memory
use parquet_rs.Memory.Slices.{content-new}
use parquet_rs.BitUtil.Reader.{read_num_bytes}
use parquet_rs.Encodings.Levels.{level_width, max_buffer_size}
use parquet_rs.Encodings.Levels.Width.{level_width-le}
use parquet_rs.Encodings.Levels.Runs.{put_and_flush_lem, get_rle_lem}
use parquet_rs.Encodings.Levels.Encoder as Encoder
use parquet_rs.Encodings.Levels.Encoder.{LevelEncoder, put_and_flush, length_prefixed}
use parquet_rs.Encodings.Levels.Decoder as Decoder
use parquet_rs.Encodings.Levels.Decoder.{LevelDecoder, as_usize, set_range, get_rle}
use parquet_rs.Encodings.Rle.Encoder.{RleEncoder, encoder_from_buf, min_buffer_size}
use parquet_rs.Encodings.Rle.Encoder as Rle
use parquet_rs.Encodings.Rle.Decoder.{RleDecoder}
use parquet_rs.Encodings.Rle.Decoder as RleDecoding
use parquet_rs.Encodings.Rle.Format.{runs_bytes}
use parquet_rs.Encodings.Rle.Encode.Space.{group_size, times_mono, max_buffer_size_lem}
use parquet_rs.Encodings.Rle.Encode.Whole.{IsEncoded}
use parquet_rs.Prelude.Bytes.{IsByte}
use parquet_rs.Prelude.{
  none, ℕ, ◌+◌, ◌/◌, ◌^◌, ◌≤◌, ◌<◌, List, ◌++◌, length, length-take, length-replicate, take,
  replicate, All, All-replicate, some, ok, ◌≡◌, refl, sym, ap, ◌∙◌, arith, bind_to,
}
use parquet_rs.Encodings.Levels.Framed.{
  framed, length_framed, length_prefixed_lem, read_length, as_usize_lem, set_framed, set_whole,
}

least_size : (n : ℕ) → 10 ≤ min_buffer_size n
unfolding min_buffer_size
least_size n = omega arith

module _ (max_level : ℕ) (levels : List ℕ) (places : List ℕ) (h : max_level < 2 ^ 15)
    (small : All (λ v. v ≤ max_level) levels) (few : length levels < 2 ^ 29)
    (same : length places ≡ length levels) where
  abbrev n : ℕ
  n = level_width max_level

  size : ℕ
  size = Rle.max_buffer_size n (length levels) + min_buffer_size n

  size_lem : max_buffer_size Encoding.rle max_level (length levels) ≡ ok size
  unfolding max_buffer_size size
  size_lem = refl

  buf : List ℕ
  buf = replicate size 0

  -- The runs are short enough for their length to be an `i32`.
  bounded : Rle.max_buffer_size n (length levels) < 2 ^ 31
  bounded = omega (
    arith,
    max_buffer_size_lem n (length levels),
    times_mono (group_size n) 16 ((length levels + 7) / 8)
        (omega (arith, level_width-le max_level h)),
    few,
  )

  encoded :
      (start : ℕ)
      → start ≤ 4
      → (e : RleEncoder) × (e' : RleEncoder) × (encoder_from_buf n buf start ≡ ok e)
        × (put_and_flush levels e ≡ ok (length levels, e'))
        × IsEncoded (take start buf) n (length levels) levels (Rle.consume e')
  unfolding buf size
  encoded start at =
      let long : length buf ≡ size = length-replicate size 0 in
      put_and_flush_lem max_level h levels buf start small (omega (arith, few))
        (All-replicate IsByte size 0 (omega arith)) (omega (arith, long, at, least_size n))
        (omega (arith, long)) (omega (arith, long, at, least_size n))

  -- Levels of a data page of version 2. For every greatest level below 2 ^ 15, and any levels up to
  -- it, fewer than 2 ^ 29: a buffer of `max_buffer_size` is enough for an encoder by RLE to take them
  -- all in one `put`, and a decoder that is given the bytes of `consume` by `set_data_range` fills a
  -- buffer of as many places with these levels in their order. Nothing panics or fails.
  pub rle_v2_round_trip :
      (size : ℕ) × (e : LevelEncoder) × (e' : LevelEncoder) × (bytes : List ℕ) × (d : LevelDecoder)
      × (d' : LevelDecoder) × (max_buffer_size Encoding.rle max_level (length levels) ≡ ok size)
      × (Encoder.v2 max_level (replicate size 0) ≡ ok e)
      × (Encoder.put levels e ≡ ok (length levels, e'))
      × (Encoder.consume e' ≡ ok bytes)
      × (Decoder.set_data_range
            (length levels)
            (Memory.new bytes)
            0
            (length bytes)
            (Decoder.v2 max_level)
          ≡ ok (length bytes, d))
      × (Decoder.get places d ≡ ok (length levels, (levels, d')))
  unfolding Encoder.v2 Encoder.put Encoder.consume Decoder.set_data_range Decoder.v2 Decoder.get buf
      size
  rle_v2_round_trip =
      let (e, e', made, taken, r) = encoded 0 (omega arith) in
      let (d, d', ready, read) =
        get_rle_lem max_level h levels r.runs r.padding r.are_runs r.values places same in
      let bytes = runs_bytes n r.runs in
      (
        size,
        LevelEncoder.rle_v2 e,
        LevelEncoder.rle_v2 e',
        bytes,
        LevelDecoder.rle_v2 (some (length levels)) d,
        LevelDecoder.rle_v2 (some 0) d',
        size_lem,
        bind_to (encoder_from_buf n buf 0) e _ made refl,
        bind_to (put_and_flush levels e) (length levels, e') _ taken refl,
        r.is,
        bind_to (set_range 0 (length bytes) (Memory.new bytes) (RleDecoding.new n)) d _
            (set_whole bytes (RleDecoding.new n) d ready) refl,
        bind_to (get_rle (some (length levels)) places d) (length levels, (levels, (0, d'))) _ read
            refl,
      )

  -- Levels of a data page of version 1, by RLE. For every greatest level below 2 ^ 15, and any levels
  -- up to it, fewer than 2 ^ 29: a buffer of `max_buffer_size`, which does not count the four bytes of
  -- the length, is enough for an encoder to take them all in one `put`, and a decoder that is given
  -- the bytes of `consume` by `set_data`, which takes all of them, fills a buffer of as many places
  -- with the levels in their order. Nothing panics or fails.
  pub rle_round_trip :
      (size : ℕ) × (e : LevelEncoder) × (e' : LevelEncoder) × (bytes : List ℕ) × (d0 : LevelDecoder)
      × (d : LevelDecoder) × (d' : LevelDecoder) × (max_buffer_size Encoding.rle max_level
            (length levels)
          ≡ ok size)
      × (Encoder.v1 Encoding.rle max_level (replicate size 0) ≡ ok e)
      × (Encoder.put levels e ≡ ok (length levels, e'))
      × (Encoder.consume e' ≡ ok bytes)
      × (Decoder.v1 Encoding.rle max_level ≡ ok d0)
      × (Decoder.set_data (length levels) (Memory.new bytes) d0 ≡ ok (length bytes, d))
      × (Decoder.get places d ≡ ok (length levels, (levels, d')))
  unfolding Encoder.v1 Encoder.put Encoder.consume Decoder.v1 Decoder.set_data Decoder.get buf size
  rle_round_trip =
      let (e, e', made, taken, r) = encoded 4 (omega arith) in
      let (d, d', ready, read) =
        get_rle_lem max_level h levels r.runs r.padding r.are_runs r.values places same in
      let runs = runs_bytes n r.runs in
      let short : length runs < 2 ^ 31 = omega (arith, r.fits, bounded) in
      let head_long : length (take 4 buf) ≡ 4 =
        omega (arith, length-take 4 buf, length-replicate {A = ℕ} size 0, least_size n) in
      let part : set_range 4 (as_usize (length runs)) (Memory.new (framed runs short))
            (RleDecoding.new n)
          ≡ ok d =
        ap (λ (k : ℕ). set_range 4 k (Memory.new (framed runs short)) (RleDecoding.new n))
          (as_usize_lem runs short)
        ∙ set_framed runs short (RleDecoding.new n) d ready in
      (
        size,
        LevelEncoder.rle e,
        LevelEncoder.rle e',
        framed runs short,
        LevelDecoder.rle none (RleDecoding.new n),
        LevelDecoder.rle (some (length levels)) d,
        LevelDecoder.rle (some 0) d',
        size_lem,
        bind_to (encoder_from_buf n buf 4) e _ made refl,
        bind_to (put_and_flush levels e) (length levels, e') _ taken refl,
        bind_to (Rle.consume e') (take 4 buf ++ runs) _ r.is
            (length_prefixed_lem runs short (take 4 buf) head_long),
        refl,
        bind_to (content (Memory.new (framed runs short))) (framed runs short) _
            (content-new (framed runs short))
            (bind_to (read_num_bytes 4 (framed runs short)) (length runs) _ (read_length runs short)
              (bind_to
                (set_range 4 (as_usize (length runs)) (Memory.new (framed runs short))
                  (RleDecoding.new n))
                d _ part
                (ap (λ (k : ℕ). ok (k, LevelDecoder.rle (some (length levels)) d))
                  (ap (λ (k : ℕ). 4 + k) (as_usize_lem runs short)
                    ∙ sym (length_framed runs short))))),
        bind_to (get_rle (some (length levels)) places d) (length levels, (levels, (0, d'))) _ read
            refl,
      )
