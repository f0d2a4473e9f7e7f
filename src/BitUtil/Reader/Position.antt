-- ===== src/BitUtil/Reader/Position.antt =====
-- src/util/bit_util.rs: the state invariant of `BitReader`. The bytes spell one number, and a
-- reader stands at one of its bits.
use parquet_rs.BitUtil.Reader.{BitReader, read_num_bytes, reload_buffer_values, new}
use parquet_rs.Prelude.{
  ℕ, ◌+◌, ◌-◌, ◌*◌, ◌/◌, ◌%◌, ◌^◌, ◌≤◌, ◌<◌, min, List, length, take, drop, All, All-drop,
  length-drop, take-min, ok, ◌≡◌, refl, sym, ap, ◌∙◌, arith,
}
use parquet_rs.Prelude.Bytes.{IsByte, from_le, from_le-drop, from_le-take, byte_pow-eq-two_pow}

-- Bit `p` and those above it.
abbrev pub bits_from : List ℕ → ℕ → ℕ
bits_from bytes p = from_le bytes / 2 ^ p

pub record IsValid (r : BitReader) : Type 0 where
  pub fits : length r.buffer ≡ r.total_bytes
  pub bytes : All IsByte r.buffer
  pub pending : r.bit_offset < 64
  pub room : 8 * r.byte_offset + r.bit_offset ≤ 8 * r.total_bytes
  pub loaded : r.buffered_values ≡ bits_from r.buffer (8 * r.byte_offset) % 2 ^ 64

abbrev pub position : BitReader → ℕ
position r = 8 * r.byte_offset + r.bit_offset

-- Eight bytes at most, from byte `off` on, are the 64 bits from there on.
pub load_lem :
    (bytes : List ℕ) (off : ℕ)
    → All IsByte bytes
    → off ≤ length bytes
    → from_le (take (min (length bytes - off) 8) (drop off bytes))
      ≡ bits_from bytes (8 * off) % 2 ^ 64
load_lem bytes off h fits =
    ap (λ (k : ℕ). from_le (take (min k 8) (drop off bytes))) (sym (length-drop off bytes))
    ∙ ap from_le (take-min 8 (drop off bytes))
    ∙ from_le-take 8 (drop off bytes) (All-drop IsByte off bytes h)
    ∙ ap (λ (t : ℕ). t % 2 ^ 64) (from_le-drop off bytes h)
    ∙ ap (λ (t : ℕ). from_le bytes / t % 2 ^ 64) (byte_pow-eq-two_pow off)

-- `reload_buffer_values` makes the buffered bits fit the offset again.
pub reload_lem :
    (r : BitReader)
    → All IsByte r.buffer
    → length r.buffer ≡ r.total_bytes
    → r.byte_offset ≤ r.total_bytes
    → reload_buffer_values r
      ≡ ok (record r { buffered_values = bits_from r.buffer (8 * r.byte_offset) % 2 ^ 64 })
unfolding reload_buffer_values read_num_bytes
reload_lem r bytes fits h =
    ground (arith, length-drop r.byte_offset r.buffer, load_lem r.buffer r.byte_offset bytes, fits)

-- `BitReader::new` never panics on a list of bytes: the reader is valid, holds these bytes, and
-- stands at the first bit.
pub new-IsValid :
    (buffer : List ℕ)
    → All IsByte buffer
    → (r : BitReader) × (new buffer ≡ ok r) × IsValid r × (r.buffer ≡ buffer) × (position r ≡ 0)
unfolding new
new-IsValid buffer bytes = (
  record {
    buffer = buffer;
    buffered_values = bits_from buffer 0 % 2 ^ 64;
    byte_offset = 0;
    bit_offset = 0;
    total_bytes = length buffer;
  },
  ground (arith, load_lem buffer 0 bytes, same),
  record { fits = refl; bytes = bytes; pending = omega arith; room = omega arith; loaded = refl },
  refl,
  omega arith,
)
  where
    same : min 8 (length buffer) ≡ min (length buffer - 0) 8
    same = omega arith
