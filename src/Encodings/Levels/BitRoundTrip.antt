-- ===== src/Encodings/Levels/BitRoundTrip.antt =====
-- src/encodings/levels.rs: what `LevelEncoder` writes by bit packing, `LevelDecoder` reads.
use parquet_rs.Basic.{Encoding}
use parquet_rs.Memory as Memory
use parquet_rs.Memory.{content, range}
use parquet_rs.Memory.Slices.{take_length, range-new}
use parquet_rs.BitUtil.Scalar.{ceil}
use parquet_rs.BitUtil.Scalar.Laws.{ceil_eight}
use parquet_rs.BitUtil.Writer.{BitWriter, new_from_buf, flush}
use parquet_rs.BitUtil.Writer.Aligned.{flushed}
use parquet_rs.BitUtil.Reader as Reader
use parquet_rs.BitUtil.Reader.{BitReader, reset}
use parquet_rs.BitUtil.Reader.Position.{IsValid, position, new-IsValid}
use parquet_rs.Encodings.Levels.{level_width, max_buffer_size}
use parquet_rs.Encodings.Levels.Width.{level_width-le, level_width_lem}
use parquet_rs.Encodings.Levels.BitPacked.{
  Spells, put_bit_packed_lem, consume-flushed, get_bit_packed_lem,
}
use parquet_rs.Encodings.Levels.Encoder as Encoder
use parquet_rs.Encodings.Levels.Encoder.{LevelEncoder, put_bit_packed}
use parquet_rs.Encodings.Levels.Decoder as Decoder
use parquet_rs.Encodings.Levels.Decoder.{LevelDecoder, get_bit_packed}
use parquet_rs.Encodings.Rle.Encode.Space.{times_mono}
use native.Mathlib.Decide.{dec_le}
use parquet_rs.Prelude.Bytes.{IsByte, from_le}
use parquet_rs.Prelude.{
  ℕ, ◌+◌, ◌*◌, ◌/◌, ◌^◌, ◌≤◌, ◌<◌, min, List, [], ◌∷◌, length, length-replicate, replicate, All,
  All-replicate, none, some, ok, ◌≡◌, refl, sym, ap, ◌∙◌, arith, bind_to,
}

-- What every level satisfies.
map_levels : {P Q : ℕ → Type 0} → ((v : ℕ) → P v → Q v) → (l : List ℕ) → All P l → All Q l
map_levels f [] h = tt
map_levels f (v ∷ l) h = (f v h.0, map_levels f l h.1)

reset-new : (bytes : List ℕ) (r : BitReader) → reset bytes r ≡ Reader.new bytes
unfolding reset Reader.new
reset-new bytes r = refl

module _ (max_level : ℕ) (levels : List ℕ) (places : List ℕ) (some_levels : 0 < max_level)
    (h : max_level < 2 ^ 15) (small : All (λ v. v ≤ max_level) levels) (more : 0 < length levels)
    (same : length places ≡ length levels) where
  abbrev n : ℕ
  n = level_width max_level

  some_bits : 0 < n
  some_bits = elim (dec_le 1 n) [
    | yes bits ↦ omega (arith, bits)
    | no zero_bits ↦
        let one : 2 ^ n ≡ 1 =
          ap (λ (k : ℕ). 2 ^ k) (let e : n ≡ 0 = omega (arith, zero_bits) in e) in
        absurd
          (omega (arith, one, level_width_lem max_level h max_level (omega arith), some_levels))
  ]

  size : ℕ
  size = ceil (length levels * n) 8

  size_lem : size ≡ (n * length levels + 7) / 8
  unfolding size
  size_lem = omega (arith, ceil_eight (length levels * n))

  some_bytes : 0 < size
  some_bytes =
      omega (arith, size_lem, times_mono 1 n (length levels) (omega (arith, some_bits)), more)

  writer : BitWriter
  writer = record {
    buffer = replicate size 0;
    max_bytes = length {A = ℕ} (replicate size 0);
    buffered_values = 0;
    byte_offset = 0;
    bit_offset = 0;
    start = 0;
  }

  writer_lem : new_from_buf (replicate size 0) 0 ≡ ok writer
  unfolding writer new_from_buf
  writer_lem = ground (arith, some_bytes, length-replicate {A = ℕ} size 0)

  writer-Spells : Spells n [] writer
  unfolding writer from_le
  writer-Spells = record {
    valid = record {
      fits = refl;
      bytes = All-replicate IsByte size 0 (omega arith);
      pending = omega arith;
      buffered = omega arith;
      room = omega arith;
      started = omega arith;
    };
    place = omega arith;
    held = omega arith;
  }

  room : n * (0 + length levels) ≤ 8 * writer.max_bytes
  unfolding writer
  room = omega (arith, size_lem, length-replicate {A = ℕ} size 0)

  narrow : All (λ v. v < 2 ^ n) levels
  narrow = map_levels (level_width_lem max_level h) levels small

  set_data_lem :
      (bytes : List ℕ) (r0 : BitReader)
      → All IsByte bytes
      → length bytes ≡ size
      → (r : BitReader) × (IsValid r)
        × (r.buffer ≡ bytes)
        × (position r ≡ 0)
        × (Decoder.set_data (length levels) (Memory.new bytes) (LevelDecoder.bit_packed none n r0)
            ≡ ok (length bytes, LevelDecoder.bit_packed (some (length levels)) n r))
  unfolding Decoder.set_data Memory.new size
  set_data_lem bytes r0 are_bytes long =
      let (r, opened, valid, buffer, start) = new-IsValid bytes are_bytes in
      let (p, ranged, held) = range-new bytes 0 (length bytes) (omega arith) in
      let all : min (ceil (length levels * n) 8) (length bytes) ≡ length bytes =
        omega (arith, long) in
      (
        r,
        valid,
        buffer,
        start,
        bind_to (range 0 (min (ceil (length levels * n) 8) (length bytes)) (Memory.new bytes)) p _
            (ap (λ (k : ℕ). range 0 k (Memory.new bytes)) all ∙ ranged)
            (bind_to (content p) bytes _ (held ∙ ap ok (take_length bytes)) (
              bind_to (reset bytes r0) r _ (reset-new bytes r0 ∙ opened)
                (ap (λ (k : ℕ). ok (k, LevelDecoder.bit_packed (some (length levels)) n r)) all))),
      )

  -- Levels of a data page of version 1, by bit packing. For every greatest level from 1 on and below
  -- 2 ^ 15, and any levels up to it, one at least: a buffer of `max_buffer_size` is enough for an
  -- encoder to take them all in one `put`, and a decoder that is given the bytes of `consume` by
  -- `set_data`, as a buffer that starts at 0, takes all of them and fills a buffer of as many places
  -- with the levels in their order. Nothing panics or fails.
  pub bit_packed_round_trip :
      (size : ℕ) × (e : LevelEncoder) × (e' : LevelEncoder) × (bytes : List ℕ) × (d0 : LevelDecoder)
      × (d : LevelDecoder) × (d' : LevelDecoder) × (max_buffer_size Encoding.bit_packed max_level
            (length levels)
          ≡ ok size)
      × (Encoder.v1 Encoding.bit_packed max_level (replicate size 0) ≡ ok e)
      × (Encoder.put levels e ≡ ok (length levels, e'))
      × (Encoder.consume e' ≡ ok bytes)
      × (Decoder.v1 Encoding.bit_packed max_level ≡ ok d0)
      × (Decoder.set_data (length levels) (Memory.new bytes) d0 ≡ ok (length bytes, d))
      × (Decoder.get places d ≡ ok (length levels, (levels, d')))
  unfolding Encoder.v1 Encoder.put Encoder.consume Decoder.v1 Decoder.get max_buffer_size size
  bit_packed_round_trip =
      let (w1, taken, s) =
        put_bit_packed_lem n [] levels 0 writer (omega (arith, level_width-le max_level h))
          (map_levels (λ v le. (level_width_lem max_level h v le, omega (arith, le, h))) levels
            small)
          writer-Spells room in
      let (bytes, done, out, are_bytes, long, value) = consume-flushed n levels w1 s in
      let (r0, opened, valid0, buffer0, start0) = new-IsValid [] tt in
      let (r, valid, buffer, start, set) = set_data_lem bytes r0 are_bytes (long ∙ sym size_lem) in
      let (r', read) =
        get_bit_packed_lem n levels places r (omega (arith, level_width-le max_level h)) narrow same
          valid start (omega (arith, valid.fits, ap length buffer, long))
          (ap from_le buffer ∙ value) in
      (
        ceil (length levels * n) 8,
        LevelEncoder.bit_packed n writer,
        LevelEncoder.bit_packed n (flushed w1),
        bytes,
        LevelDecoder.bit_packed none n r0,
        LevelDecoder.bit_packed (some (length levels)) n r,
        LevelDecoder.bit_packed (some 0) n r',
        refl,
        bind_to (new_from_buf (replicate (ceil (length levels * n) 8) 0) 0) writer _ writer_lem
            refl,
        bind_to (put_bit_packed n levels 0 writer) (length levels, w1) _
            (taken
              ∙ ap (λ (j : ℕ). ok (j, w1))
                  (let q : 0 + length levels ≡ length levels = omega arith in q))
            (bind_to (flush w1) (flushed w1) _ done refl),
        out,
        bind_to (Reader.new []) r0 _ opened refl,
        set,
        bind_to (get_bit_packed (some (length levels)) n places r)
            (length levels, (levels, (0, r'))) _ read refl,
      )
