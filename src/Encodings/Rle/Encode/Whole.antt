-- ===== src/Encodings/Rle/Encode/Whole.antt =====
-- src/encodings/rle.rs: the calls of `RleEncoder` together.
use parquet_rs.Encodings.Rle.Encoder.{
  RleEncoder, encoder_from_buf, min_buffer_size, max_buffer_size, put, put_all, flush, consume,
}
use parquet_rs.Encodings.Rle.Format.{Run, IsRun, runs_bytes, runs_values}
use parquet_rs.Encodings.Rle.Encode.Holds.{Holds, Holds-consume}
use parquet_rs.Encodings.Rle.Encode.Space.{stream, stream-IsByte, group_size, max_buffer_size_lem}
use parquet_rs.Encodings.Rle.Encode.State.{Encoding}
use parquet_rs.Encodings.Rle.Encode.PutValue.{put_step}
use parquet_rs.Encodings.Rle.Encode.Flush.{Flushed, flush_idle}
use parquet_rs.Encodings.Rle.Encode.FlushAll.{flush_cases}
use parquet_rs.BitUtil.Writer.{BitWriter, new_from_buf}
use parquet_rs.Prelude.Bytes.{IsByte, from_le}
use parquet_rs.Prelude.{
  ℕ, ◌+◌, ◌*◌, ◌^◌, ◌/◌, ◌≤◌, ◌<◌, List, [], ◌∷◌, ◌++◌, length, length-append, length-take,
  append_assoc, append_nil, take, replicate, All, All-take, All-replicate, none, true, false, ok,
  Outcome, le→leb, ◌≡◌, inl, refl, sym, ap, ◌∙◌, subst, arith, bind_to, two_pow_pos,
}

-- The bytes of runs with these values, padded with fewer than eight zeros, behind the bytes `head`.
pub record IsEncoded (head : List ℕ) (n total : ℕ) (vs : List ℕ) (bytes : Outcome (List ℕ))
    : Type 0 where
  pub runs : List Run
  pub are_runs : All (IsRun n) runs
  pub padding : ℕ
  pub short : padding < 8
  pub values : runs_values runs ≡ vs ++ replicate padding 0
  pub fits : length (runs_bytes n runs) ≤ max_buffer_size n total
  pub is : bytes ≡ ok (head ++ runs_bytes n runs)

pub put_lem :
    (head : List ℕ) (n total : ℕ) (vs : List ℕ) (v : ℕ) (e : RleEncoder)
    → Encoding head n total vs e
    → v < 2 ^ n
    → length vs < total
    → total < 2 ^ 32
    → (e' : RleEncoder) × (put v e ≡ ok (true, e')) × Encoding head n total (vs ++ v ∷ []) e'
put_lem head n total vs v e h small within limit =
    put_step head n total vs v e h.common h.runs h.are_runs h.do_fit
      (subst (λ k. v < 2 ^ k) (sym h.common.width) small) within limit h.state

put_all_lem :
    (head : List ℕ) (n total : ℕ) (vs xs : List ℕ) (e : RleEncoder)
    → Encoding head n total vs e
    → All (λ v. v < 2 ^ n) xs
    → length vs + length xs ≤ total
    → total < 2 ^ 32
    → (e' : RleEncoder) × (put_all xs e ≡ ok e') × Encoding head n total (vs ++ xs) e'
unfolding put_all
put_all_lem head n total vs [] e h small within limit =
    (e, refl, subst (λ l. Encoding head n total l e) (sym (append_nil vs)) h)
put_all_lem head n total vs (x ∷ xs) e h small within limit =
    let (e1, first, h1) = put_lem head n total vs x e h small.0 (omega (arith, within)) limit in
    let (e2, others, h2) =
      put_all_lem head n total (vs ++ x ∷ []) xs e1 h1 small.1
        (omega (arith, within, length-append vs (x ∷ []))) limit in
    (
      e2,
      bind_to (put x e) (true, e1) _ first others,
      subst (λ l. Encoding head n total l e2) (append_assoc vs (x ∷ []) xs) h2,
    )

pub flush_lem :
    (head : List ℕ) (n total : ℕ) (vs : List ℕ) (e : RleEncoder)
    → Encoding head n total vs e
    → length vs ≤ total
    → total < 2 ^ 32
    → (e' : RleEncoder) × (flush e ≡ ok e')
      × (e'.bit_width ≡ n)
      × Flushed head ((total + 7) / 8 * group_size n) vs e'
flush_lem head n total vs e h within limit =
    let (e', done, same, f) =
      flush_cases head n total vs e h.common h.runs h.are_runs h.do_fit within limit h.state in
    (
      e',
      done,
      same ∙ h.common.width,
      subst (λ k. Flushed head ((total + 7) / 8 * group_size k) vs e') h.common.width f,
    )

-- What a flushed encoder hands over.
consume-Flushed :
    (head : List ℕ) (n total : ℕ) (vs : List ℕ) (e e' : RleEncoder)
    → All IsByte head
    → flush e ≡ ok e'
    → e'.bit_width ≡ n
    → Flushed head ((total + 7) / 8 * group_size n) vs e'
    → IsEncoded head n total vs (consume e)
unfolding consume
consume-Flushed head n total vs e e' head_bytes done width f = record {
  runs = f.runs;
  are_runs = subst (λ k. All (IsRun k) f.runs) width f.are_runs;
  padding = f.padding;
  short = f.short;
  values = f.values;
  fits = omega (
    arith,
    max_buffer_size_lem n total,
    subst (λ k. length (runs_bytes k f.runs) ≤ (total + 7) / 8 * group_size n) width f.fits,
  );
  is = bind_to (flush e) e' _ done (
      Holds-consume (stream head e'.bit_width f.runs) e'.bit_writer
        (stream-IsByte head e'.bit_width f.runs head_bytes) f.holds
      ∙ ap (λ k. ok (head ++ runs_bytes k f.runs)) width);
}

pub consume-put :
    (head : List ℕ) (n total : ℕ) (vs : List ℕ) (e : RleEncoder)
    → Encoding head n total vs e
    → length vs ≤ total
    → total < 2 ^ 32
    → IsEncoded head n total vs (consume e)
consume-put head n total vs e h within limit =
    let (e', done, width, f) = flush_lem head n total vs e h within limit in
    consume-Flushed head n total vs e e' h.common.head_bytes done width f

-- A second flush does nothing.
pub consume-flush :
    (head : List ℕ) (n total : ℕ) (vs : List ℕ) (e : RleEncoder)
    → All IsByte head
    → e.bit_width ≡ n
    → Flushed head ((total + 7) / 8 * group_size n) vs e
    → IsEncoded head n total vs (consume e)
consume-flush head n total vs e head_bytes width f =
    consume-Flushed head n total vs e e head_bytes
      (flush_idle e f.none_packed f.none_repeated f.none_buffered) width f

-- A new encoder on a buffer whose first `start` bytes are someone else's.
module _ (n total : ℕ) (buf : List ℕ) (start : ℕ) (narrow : n ≤ 64) (bytes : All IsByte buf)
    (inside : start < length buf) (large : min_buffer_size n ≤ length buf)
    (room : start + max_buffer_size n total ≤ length buf) where
  abbrev head : List ℕ
  head = take start buf

  length_head : length head ≡ start
  length_head = omega (arith, length-take start buf, inside)

  writer : BitWriter
  writer = record {
    buffer = buf;
    max_bytes = length buf;
    buffered_values = 0;
    byte_offset = start;
    bit_offset = 0;
    start = start;
  }

  writer_lem : new_from_buf buf start ≡ ok writer
  unfolding writer new_from_buf
  writer_lem = ground (arith, inside)

  writer-Holds : Holds (stream head n []) writer
  unfolding writer
  writer-Holds = record {
    valid = record {
      fits = refl;
      bytes = bytes;
      pending = omega arith;
      buffered = omega arith;
      room = omega (arith, inside);
      started = omega arith;
    };
    place = omega (arith, length_head, ap length (append_nil head));
    held = omega (arith, ap from_le (append_nil head));
  }

  started : RleEncoder
  started = record {
    bit_width = n;
    bit_writer = writer;
    buffer_full = false;
    max_run_byte_size = min_buffer_size n;
    buffered_values = replicate 8 0;
    num_buffered_values = 0;
    current_value = 0;
    repeat_count = 0;
    bit_packed_count = 0;
    indicator_byte_pos = none;
  }

  started_lem : encoder_from_buf n buf start ≡ ok started
  unfolding started encoder_from_buf
  started_lem =
      rw (le→leb n 64 narrow, le→leb (min_buffer_size n) (length buf) large)
        (bind_to (new_from_buf buf start) writer _ writer_lem refl)

  started-Encoding : Encoding head n total [] started
  unfolding started writer
  started-Encoding = record {
    common = record {
      head_bytes = All-take IsByte start buf bytes;
      width = refl;
      narrow = narrow;
      not_full = refl;
      slots = refl;
      small = All-replicate (λ v. v < 2 ^ n) 8 0 (two_pow_pos n);
      current = two_pow_pos n;
      room = omega (arith, room, length_head, max_buffer_size_lem n total);
    };
    runs = [];
    are_runs = tt;
    do_fit = omega arith;
    state = inl (
      [],
      0,
      record {
        place = record {
          count = refl;
          size = refl;
          few = omega arith;
          all_small = tt;
          kind = inl (refl, refl, record { nowhere = refl; holds = writer-Holds });
        };
        room_left = omega arith;
        front = [];
        tail = refl;
        all = refl;
      },
    );
  }

  pub encoder_from_buf_lem :
      (e : RleEncoder) × (encoder_from_buf n buf start ≡ ok e)
      × Encoding (take start buf) n total [] e
  encoder_from_buf_lem = (started, started_lem, started-Encoding)

-- An encoder on a buffer of bytes that starts behind `start` bytes, and has room for the least size
-- and, behind the start, for `max_buffer_size` of the number of values: for every width up to 64, it
-- takes any values of this width, fewer than 2 ^ 32, each `put` returning true, and `consume` hands
-- over the bytes before the start, unchanged, and the bytes, in the format, of runs whose values are
-- the given ones in their order and fewer than eight zeros. These are `max_buffer_size` bytes at
-- most, and nothing panics or fails.
pub consume-put_all :
    (n : ℕ) (buf : List ℕ) (start : ℕ) (vs : List ℕ)
    → n ≤ 64
    → All IsByte buf
    → start < length buf
    → min_buffer_size n ≤ length buf
    → start + max_buffer_size n (length vs) ≤ length buf
    → All (λ v. v < 2 ^ n) vs
    → length vs < 2 ^ 32
    → (e : RleEncoder) × (e' : RleEncoder) × (runs : List Run) × (padding : ℕ) × (encoder_from_buf n
          buf start
        ≡ ok e)
      × (put_all vs e ≡ ok e')
      × (consume e' ≡ ok (take start buf ++ runs_bytes n runs))
      × All (IsRun n) runs
      × (runs_values runs ≡ vs ++ replicate padding 0)
      × (padding < 8)
      × (length (runs_bytes n runs) ≤ max_buffer_size n (length vs))
consume-put_all n buf start vs narrow bytes inside large room small few =
    let (e, made, h) =
      encoder_from_buf_lem n (length vs) buf start narrow bytes inside large room in
    let (e', taken, h') =
      put_all_lem (take start buf) n (length vs) [] vs e h small (omega arith) few in
    let r = consume-put (take start buf) n (length vs) vs e' h' (omega arith) few in
    (e, e', r.runs, r.padding, made, taken, r.is, r.are_runs, r.values, r.short, r.fits)
