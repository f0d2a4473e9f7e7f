-- ===== src/Encodings/Rle/EncodeRun.antt =====
-- src/encodings/rle.rs: `RleEncoder::flush_rle_run` writes a run in the format.
use parquet_rs.Encodings.Rle.Encoder.{RleEncoder, flush_rle_run}
use parquet_rs.Encodings.Rle.Format.{repeated, run_bytes}
use parquet_rs.BitUtil.Writer.{BitWriter, put_aligned}
use parquet_rs.BitUtil.Writer.Invariant.{IsValid}
use parquet_rs.BitUtil.Writer.Aligned.{
  flushed, aligned, put_bytes, put_aligned_full, put_aligned_room, put_bytes-IsValid,
  written-put_bytes,
}
use parquet_rs.BitUtil.Vlq.{put_vlq_int}
use parquet_rs.BitUtil.Vlq.Format.{vlq}
use parquet_rs.BitUtil.Vlq.Put.{Put, put_vlq_int_lem}
use parquet_rs.BitUtil.Scalar.{ceil}
use parquet_rs.BitUtil.Scalar.Laws.{ceil_eight}
use parquet_rs.Prelude.{
  ℕ, ◌+◌, ◌*◌, ◌/◌, ◌%◌, ◌^◌, ◌≤◌, ◌<◌, List, ◌++◌, length, length-append, Bool, true, false, ◌&&◌,
  Outcome, ok, err, general, ◌>>=◌, ◌>>◌, assert, lt→ltb, leb, le→leb, if◌then◌else◌, ◌≡◌, refl,
  sym, ap, ap₂, ◌∙◌, arith, two_pow-add,
}
use parquet_rs.Prelude.Bytes.{
  from_le, to_le, length-to_le, from_le-to_le, from_le-append, byte_pow-eq-two_pow,
}
use native.Mathlib.Decide.{dec_le}

gt→leb : (a b : ℕ) → ¬ (a ≤ b) → leb a b ≡ false
gt→leb a b h = ground arith

-- What is returned for the results of the two writes.
rle_result : RleEncoder → Bool → BitWriter → Outcome RleEncoder
rle_result e done w =
    if done
    then ok (record e { bit_writer = w; num_buffered_values = 0; repeat_count = 0 })
    else err general

flush_rle_run-rle_result :
    (e : RleEncoder) (w1 w2 : BitWriter) (a b : Bool)
    → 0 < e.repeat_count
    → put_vlq_int (e.repeat_count * 2 % 2 ^ 64) e.bit_writer ≡ ok (a, w1)
    → put_aligned e.current_value (ceil e.bit_width 8) w1 ≡ ok (b, w2)
    → flush_rle_run e ≡ rle_result e (a && b) w2
unfolding flush_rle_run rle_result
flush_rle_run-rle_result e w1 w2 a b more first second =
    ap
      (λ (t : Bool).
        assert t
        >> (put_vlq_int (e.repeat_count * 2 % 2 ^ 64) e.bit_writer >>= λ (x, u1).
            put_aligned e.current_value (ceil e.bit_width 8) u1 >>= λ (y, u2).
            rle_result e (x && y) u2))
      (lt→ltb 0 e.repeat_count more)
    ∙ ap
        (λ (m : Outcome (Bool × BitWriter)). m >>= λ (x, u1).
          put_aligned e.current_value (ceil e.bit_width 8) u1 >>= λ (y, u2).
          rle_result e (x && y) u2)
        first
    ∙ ap (λ (m : Outcome (Bool × BitWriter)). m >>= λ (y, u2). rle_result e (a && y) u2) second

-- A number in whole bytes behind others.
module _ (bytes : List ℕ) (v n : ℕ) (w w1 : BitWriter) (first : Put bytes w w1)
    (fits : aligned w + length bytes + n ≤ w.max_bytes) where
  at_end : aligned w1 ≡ aligned w + length bytes
  at_end =
      omega
        (arith, ceil_eight w1.bit_offset, first.full_bytes, first.appended (omega (arith, fits)))

  room_for : aligned w1 + n ≤ w1.max_bytes
  room_for = omega (arith, at_end, fits, first.same_room)

  Put-put_bytes : Put (bytes ++ to_le n v) w (put_bytes v n w1)
  Put-put_bytes = record {
    valid = put_bytes-IsValid v n w1 first.valid room_for;
    same_room = first.same_room;
    same_start = first.same_start;
    full_bytes = refl;
    appended = λ h. (
      omega (arith, at_end, length-append bytes (to_le n v), length-to_le n v),
      written-put_bytes v n w1 first.valid room_for
          ∙ ap₂ (λ (x y : ℕ). x + y * (v % 2 ^ (8 * n))) (first.appended (omega (arith, fits))).1
              further
          ∙ omega (arith, ap (λ (t : ℕ). 2 ^ (8 * aligned w) * t) whole),
    );
  }
    where
      further : 2 ^ (8 * aligned w1) ≡ 2 ^ (8 * aligned w) * 256 ^ length bytes
      further =
          ap (λ (k : ℕ). 2 ^ k)
            (let e : 8 * aligned w1 ≡ 8 * aligned w + 8 * length bytes = omega (arith, at_end) in e)
          ∙ two_pow-add (8 * aligned w) (8 * length bytes)
          ∙ ap (λ (t : ℕ). 2 ^ (8 * aligned w) * t) (sym (byte_pow-eq-two_pow (length bytes)))

      whole : from_le (bytes ++ to_le n v) ≡ from_le bytes + 256 ^ length bytes * (v % 2 ^ (8 * n))
      whole =
          from_le-append bytes (to_le n v)
          ∙ ap (λ (t : ℕ). from_le bytes + 256 ^ length bytes * t)
              (from_le-to_le n v ∙ ap (λ (t : ℕ). v % t) (byte_pow-eq-two_pow n))

-- The bytes of the run that is being repeated.
abbrev pub repeated_bytes : RleEncoder → List ℕ
repeated_bytes e = run_bytes e.bit_width (repeated e.repeat_count e.current_value)

module _ (e : RleEncoder) (valid : IsValid e.bit_writer) (more : 0 < e.repeat_count)
    (small : e.repeat_count < 2 ^ 63) where
  abbrev indicator : List ℕ
  indicator = vlq (2 * e.repeat_count)

  abbrev value_len : ℕ
  value_len = (e.bit_width + 7) / 8

  first_write :
      (w1 : BitWriter) × (put_vlq_int (e.repeat_count * 2 % 2 ^ 64) e.bit_writer
        ≡ ok (leb (aligned e.bit_writer + length indicator) e.bit_writer.max_bytes, w1))
      × Put indicator e.bit_writer w1
  first_write =
      let (w1, q, p) = put_vlq_int_lem (2 * e.repeat_count) e.bit_writer valid (omega arith) in
      (
        w1,
        ap (λ (v : ℕ). put_vlq_int v e.bit_writer)
              (let q' : e.repeat_count * 2 % 2 ^ 64 ≡ 2 * e.repeat_count = omega arith in q')
            ∙ q,
        p,
      )

  second_write :
      (w1 : BitWriter)
      → put_aligned e.current_value (ceil e.bit_width 8) w1
        ≡ put_aligned e.current_value value_len w1
  second_write w1 = ap (λ (n : ℕ). put_aligned e.current_value n w1) (ceil_eight e.bit_width)

  any_write :
      (w1 : BitWriter)
      → IsValid w1
      → (b : Bool) × (w2 : BitWriter) × (put_aligned e.current_value value_len w1 ≡ ok (b, w2))
  any_write w1 v1 = elim (dec_le (aligned w1 + value_len) w1.max_bytes) [
    | yes room ↦ (
      true,
      put_bytes e.current_value value_len w1,
      put_aligned_room e.current_value value_len w1 v1 room,
    )
    | no full ↦ (false, flushed w1, put_aligned_full e.current_value value_len w1 v1 (omega arith))
  ]

  total_length : length (repeated_bytes e) ≡ length indicator + value_len
  total_length = omega (
    arith,
    length-append indicator (to_le value_len e.current_value),
    length-to_le value_len e.current_value,
  )

  pub flush_fits :
      aligned e.bit_writer + length (repeated_bytes e) ≤ e.bit_writer.max_bytes
      → (w : BitWriter) × (flush_rle_run e
          ≡ ok (record e { bit_writer = w; num_buffered_values = 0; repeat_count = 0 }))
        × Put (repeated_bytes e) e.bit_writer w
  unfolding rle_result
  flush_fits fits =
      let (w1, q, p) = first_write in
      let room : aligned e.bit_writer + length indicator + value_len ≤ e.bit_writer.max_bytes =
        omega (arith, fits, total_length) in
      (
        put_bytes e.current_value value_len w1,
        flush_rle_run-rle_result e w1 (put_bytes e.current_value value_len w1) true true more
            (q ∙ ap (λ (b : Bool). ok (b, w1)) (le→leb _ _ (omega (arith, room))))
            (second_write w1
              ∙ put_aligned_room e.current_value value_len w1 p.valid
                  (room_for indicator e.current_value value_len e.bit_writer w1 p room)),
        Put-put_bytes indicator e.current_value value_len e.bit_writer w1 p room,
      )

  flush_full :
      e.bit_writer.max_bytes < aligned e.bit_writer + length (repeated_bytes e)
      → flush_rle_run e ≡ err general
  unfolding rle_result
  flush_full full =
      let (w1, q, p) = first_write in
      elim (dec_le (aligned e.bit_writer + length indicator) e.bit_writer.max_bytes) [
        | no over ↦
            let (b, w2, q2) = any_write w1 p.valid in
            flush_rle_run-rle_result e w1 w2 false b more
              (q ∙ ap (λ (t : Bool). ok (t, w1)) (gt→leb _ _ over)) (second_write w1 ∙ q2)
        | yes held ↦
            flush_rle_run-rle_result e w1 (flushed w1) true false more
              (q ∙ ap (λ (t : Bool). ok (t, w1)) (le→leb _ _ held))
              (second_write w1
                ∙ put_aligned_full e.current_value value_len w1 p.valid (
                    omega (
                      arith,
                      full,
                      total_length,
                      p.same_room,
                      p.full_bytes,
                      (p.appended held).0,
                      ceil_eight w1.bit_offset,
                    )))
      ]

-- `flush_rle_run` never panics on a valid writer and a run of one value at least, and fewer than
-- 2 ^ 63. When the bytes of the run, in the format, fit the buffer behind the zero padding, they are
-- appended, and the encoder counts no repetitions and holds no buffered values any more; otherwise
-- it returns an error.
pub flush_rle_run_lem :
    (e : RleEncoder)
    → IsValid e.bit_writer
    → 0 < e.repeat_count
    → e.repeat_count < 2 ^ 63
    → (if leb (aligned e.bit_writer + length (repeated_bytes e)) e.bit_writer.max_bytes
        then ((e' : RleEncoder) × (flush_rle_run e ≡ ok e')
            × Put (repeated_bytes e) e.bit_writer e'.bit_writer
            × (e'.repeat_count ≡ 0)
            × (e'.num_buffered_values ≡ 0))
        else flush_rle_run e ≡ err general)
flush_rle_run_lem e valid more small =
    elim (dec_le (aligned e.bit_writer + length (repeated_bytes e)) e.bit_writer.max_bytes) [
      | yes fits ↦
          let (w, written, put) = flush_fits e valid more small fits in
          rw (le→leb _ _ fits) (
            record e { bit_writer = w; num_buffered_values = 0; repeat_count = 0 },
            written,
            put,
            refl,
            refl,
          )
      | no full ↦ rw (gt→leb _ _ full) (flush_full e valid more small (omega arith))
    ]
