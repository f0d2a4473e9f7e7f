-- ===== src/BitUtil/Writer/Whole.antt =====
-- src/util/bit_util.rs: how a `BitWriter` starts, and the buffer that it hands over at the end.
use parquet_rs.BitUtil.Writer.{BitWriter, new, new_from_buf, clear, consume, buffer, flush_buffer}
use parquet_rs.BitUtil.Writer.Invariant.{IsValid, position, written}
use parquet_rs.BitUtil.Writer.Aligned.{
  flushed, aligned, flush_lem, flushed-IsValid, position-flushed, written-flushed,
}
use parquet_rs.Prelude.{
  ℕ, ◌+◌, ◌*◌, ◌/◌, ◌<◌, List, length, take, All, All-take, All-replicate, length-take, length-drop,
  length-replicate, ok, panic, ◌≡◌, refl, arith,
}
use parquet_rs.Prelude.Bytes.{IsByte, from_le}

pub new-IsValid : (max_bytes : ℕ) → IsValid (new max_bytes)
unfolding new
new-IsValid max_bytes = record {
  fits = length-replicate max_bytes 0;
  bytes = All-replicate IsByte max_bytes 0 (omega arith);
  pending = omega arith;
  buffered = omega arith;
  room = omega arith;
  started = omega arith;
}

-- `new_from_buf` never panics for a start inside the buffer, which holds bytes: the writer is valid,
-- has the given buffer with all its room, remembers `start`, and stands at the first bit of the byte
-- `start`, so that the bytes before it are the bits written so far.
pub new_from_buf_lem :
    (buf : List ℕ) (start : ℕ)
    → All IsByte buf
    → start < length buf
    → (w : BitWriter) × (new_from_buf buf start ≡ ok w)
      × IsValid w
      × (position w ≡ 8 * start)
      × (w.buffer ≡ buf)
      × (w.max_bytes ≡ length buf)
      × (w.start ≡ start)
      × (written w ≡ from_le (take start buf))
unfolding new_from_buf
new_from_buf_lem buf start bytes h = (
  record {
    buffer = buf;
    max_bytes = length buf;
    buffered_values = 0;
    byte_offset = start;
    bit_offset = 0;
    start = start;
  },
  ground arith,
  record {
    fits = refl;
    bytes = bytes;
    pending = omega arith;
    buffered = omega arith;
    room = omega arith;
    started = omega arith;
  },
  omega arith,
  refl,
  refl,
  refl,
  omega arith,
)

pub clear-IsValid : (w : BitWriter) → IsValid w → IsValid (clear w)
unfolding clear
clear-IsValid w v = record {
  fits = v.fits;
  bytes = v.bytes;
  pending = omega arith;
  buffered = omega arith;
  room = omega (arith, v.room, v.started);
  started = omega arith;
}

-- `consume` never panics on a valid writer. It hands over exactly the bytes of the bit string,
-- padded with zeros to a whole byte.
pub consume_lem :
    (w : BitWriter)
    → IsValid w
    → (bytes : List ℕ) × (consume w ≡ ok bytes)
      × All IsByte bytes
      × (8 * length bytes ≡ (position w + 7) / 8 * 8)
      × (from_le bytes ≡ written w)
unfolding consume
consume_lem w valid = (
  take (aligned w) (flushed w).buffer,
  rw (flush_lem w valid),
  All-take IsByte (aligned w) (flushed w).buffer (flushed-IsValid w valid).bytes,
  omega (
    arith,
    length-take (aligned w) (flushed w).buffer,
    (flushed-IsValid w valid).fits,
    (flushed-IsValid w valid).room,
    position-flushed w valid,
  ),
  omega (arith, written-flushed w valid),
)

-- For a valid writer that starts at offset 0, `flush_buffer` shows what `consume` hands over, and
-- neither panics; the writer is flushed.
pub flush_buffer-eq-consume :
    (w : BitWriter)
    → IsValid w
    → w.start ≡ 0
    → (bytes : List ℕ) × (consume w ≡ ok bytes) × (flush_buffer w ≡ ok (bytes, flushed w))
unfolding consume flush_buffer buffer
flush_buffer-eq-consume w valid h = (
  take (aligned w) (flushed w).buffer,
  rw (flush_lem w valid),
  rw (flush_lem w valid, h)
      (ground (arith, (flushed-IsValid w valid).fits, (flushed-IsValid w valid).room)),
)

-- `flush_buffer` panics on a valid writer with a `start` past 0, when `start` and the padded end of
-- the bit string are together more than the size of the buffer, as when the buffer is full: the end
-- of the slice is counted from the wrong place.
pub flush_buffer_panics :
    (w : BitWriter)
    → IsValid w
    → 0 < w.start
    → w.max_bytes < w.start + aligned w
    → flush_buffer w ≡ panic
unfolding flush_buffer buffer
flush_buffer_panics w valid h full =
    rw (flush_lem w valid)
      (ground (arith, (flushed-IsValid w valid).fits, length-drop w.start (flushed w).buffer))
