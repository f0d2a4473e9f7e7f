-- ===== src/BitUtil/Reader/Aligned.antt =====
-- src/util/bit_util.rs: `BitReader::get_aligned` reads whole bytes.
use parquet_rs.BitUtil.Reader.{BitReader, read_num_bytes, get_aligned}
use parquet_rs.BitUtil.Reader.Position.{IsValid, position, bits_from, reload_lem}
use parquet_rs.BitUtil.Scalar.{ceil}
use parquet_rs.BitUtil.Scalar.Laws.{ceil_eight}
use parquet_rs.Prelude.{
  ℕ, ◌+◌, ◌*◌, ◌/◌, ◌%◌, ◌^◌, ◌≤◌, ◌<◌, take, drop, length-drop, Bool-cases, inl, inr, none, some,
  ok, ltb, ltb→lt, ltb→le, if◌then◌else◌, ◌≡◌, refl, arith,
}
use parquet_rs.Prelude.Bytes.{from_le}

-- The byte that `get_aligned` reads from.
abbrev pub aligned : BitReader → ℕ
aligned r = r.byte_offset + ceil r.bit_offset 8

-- The reader after `num_bytes` whole bytes.
abbrev pub past : ℕ → BitReader → BitReader
past num_bytes r = record r {
  byte_offset = aligned r + num_bytes;
  bit_offset = 0;
  buffered_values = bits_from r.buffer (8 * (aligned r + num_bytes)) % 2 ^ 64;
}

module _ (num_bytes : ℕ) (r : BitReader) (valid : IsValid r) where
  pub get_aligned_short :
      r.total_bytes < aligned r + num_bytes → get_aligned num_bytes r ≡ ok (none, r)
  unfolding get_aligned
  get_aligned_short short = ground arith

  module _ (enough : aligned r + num_bytes ≤ r.total_bytes) where
    pub get_aligned_enough :
        get_aligned num_bytes r
        ≡ ok (some (from_le (take num_bytes (drop (aligned r) r.buffer))), past num_bytes r)
    unfolding get_aligned read_num_bytes
    get_aligned_enough = ground (
      arith,
      valid.fits,
      length-drop (aligned r) r.buffer,
      reload_lem (record r { byte_offset = aligned r + num_bytes; bit_offset = 0 }) valid.bytes
          valid.fits enough,
    )

    pub past-IsValid : IsValid (past num_bytes r)
    past-IsValid = record {
      fits = valid.fits;
      bytes = valid.bytes;
      pending = omega arith;
      room = omega (arith, enough);
      loaded = refl;
    }

-- `get_aligned` never panics on a valid reader. It answers `None` exactly when fewer bytes are left
-- behind the current one, and changes nothing then. Otherwise it returns the next bytes as a
-- little-endian number, and stands behind them.
pub get_aligned_lem :
    (num_bytes : ℕ) (r : BitReader)
    → IsValid r
    → (if ltb r.total_bytes (aligned r + num_bytes)
        then get_aligned num_bytes r ≡ ok (none, r)
        else (r' : BitReader) × (get_aligned num_bytes r
            ≡ ok (some (from_le (take num_bytes (drop (aligned r) r.buffer))), r'))
          × IsValid r'
          × (position r' ≡ (position r + 7) / 8 * 8 + 8 * num_bytes)
          × (r'.buffer ≡ r.buffer))
get_aligned_lem num_bytes r valid = elim (Bool-cases (ltb r.total_bytes (aligned r + num_bytes))) [
  | inl short ↦ rw short (get_aligned_short num_bytes r valid (ltb→lt _ _ short))
  | inr enough ↦
      let room = ltb→le _ _ enough in
      rw enough (
        past num_bytes r,
        get_aligned_enough num_bytes r valid room,
        past-IsValid num_bytes r valid room,
        omega (arith, ceil_eight r.bit_offset),
        refl,
      )
]
