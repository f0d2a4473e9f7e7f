-- ===== src/Encodings/Rle/Decoder.antt =====
-- src/encodings/rle.rs: `RleDecoder`. The buffer `index_buf` holds nothing from one call to the
-- next, and is left out.
use parquet_rs.Prelude.{
  ℕ, zero, suc, ◌-◌, ◌*◌, ◌/◌, ◌%◌, ◌^◌, List, Bool, true, false, ◌&&◌, Option, none, some, Outcome,
  ok, err, running, eof, ◌>>=◌, ◌>>◌, assert, unwrap, bit_and, ltb, leb, ◌==◌, if◌then◌else◌,
}
use parquet_rs.BitUtil.Scalar.{ceil}
use parquet_rs.BitUtil.Reader.{BitReader, get_value, get_aligned, reset}
use parquet_rs.BitUtil.Reader
use parquet_rs.BitUtil.Vlq.{get_vlq_int}

pub record RleDecoder : Type 0 where
  pub bit_width : ℕ
  pub bit_reader : Option BitReader
  pub rle_left : ℕ
  pub bit_packed_left : ℕ
  pub current_value : Option ℕ

unfoldable pub new : ℕ → RleDecoder
new bit_width = record {
  bit_width = bit_width;
  bit_reader = none;
  rle_left = 0;
  bit_packed_left = 0;
  current_value = none;
}

-- A run of repeated values: its value follows the indicator, in whole bytes.
unfoldable pub reload_rle : ℕ → BitReader → RleDecoder → Outcome (Bool × RleDecoder)
reload_rle indicator_value r d = do
  (v, r') ← get_aligned (ceil d.bit_width 8) r
  value ← unwrap v
  ok (
    true,
    record d {
      bit_reader = some r';
      rle_left = indicator_value / 2 % 2 ^ 32;
      current_value = some value;
    },
  )

-- What `reload` does with the indicator. The casts to `u32` keep the low 32 bits.
unfoldable pub reload_run : ℕ → BitReader → RleDecoder → Outcome (Bool × RleDecoder)
reload_run indicator_value r d =
    if bit_and indicator_value 1 == 1
    then ok
        (true, record d { bit_reader = some r; bit_packed_left = indicator_value / 2 * 8 % 2 ^ 32 })
    else reload_rle indicator_value r d

unfoldable pub reload : RleDecoder → Outcome (Bool × RleDecoder)
reload d = do
  r ← unwrap d.bit_reader
  (next, r') ← get_vlq_int r
  elim next [
    | none ↦ ok (false, record d { bit_reader = some r' })
    | some indicator_value ↦ reload_run indicator_value r' d
  ]

-- The reader of `set_data`: the old one with new data, or a new one.
unfoldable pub reader_for : Option BitReader → List ℕ → Outcome BitReader
reader_for none bytes = Reader.new bytes
reader_for (some r) bytes = reset bytes r

-- What is left of a run before stays.
unfoldable pub set_data : List ℕ → RleDecoder → Outcome RleDecoder
set_data bytes d = do
  r ← reader_for d.bit_reader bytes
  (_, d') ← reload (record d { bit_reader = some r })
  ok d'

-- `while self.rle_left <= 0 && self.bit_packed_left <= 0`: whether there is a value.
unfoldable pub refill : ℕ → RleDecoder → Outcome (Bool × RleDecoder)
refill zero d = running
refill (suc fuel) d = elim (d.rle_left == 0 && d.bit_packed_left == 0) [
  | false ↦ ok (true, d)
  | true ↦ (do (more, d') ← reload d; elim more [ true ↦ refill fuel d' | false ↦ ok (false, d') ])
]

-- The next value of the run that is being read.
unfoldable pub next_value : ℕ → RleDecoder → Outcome (ℕ × RleDecoder)
next_value size_of d =
    if ltb 0 d.rle_left
    then (do
      value ← unwrap d.current_value
      ok (value % 2 ^ (8 * size_of), record d { rle_left = d.rle_left - 1 }))
    else (do
      r ← unwrap d.bit_reader
      (v, r') ← get_value size_of d.bit_width r
      elim v [
        | none ↦ err eof
        | some value ↦
            ok (value, record d { bit_reader = some r'; bit_packed_left = d.bit_packed_left - 1 })
      ])

-- Every run takes a byte at least, so as many rounds as the reader has bytes, and one, are enough.
abbrev pub refill_fuel : RleDecoder → ℕ
refill_fuel d = elim d.bit_reader [ none ↦ 1 | some r ↦ suc (suc r.total_bytes) ]

unfoldable pub get : ℕ → RleDecoder → Outcome (Option ℕ × RleDecoder)
unfolding refill next_value
get size_of d = do
  assert (leb size_of 8)
  (more, d1) ← refill (refill_fuel d) d
  elim more [
    | false ↦ ok (none, d1)
    | true ↦ (do (value, d2) ← next_value size_of d1; ok (some value, d2))
  ]
