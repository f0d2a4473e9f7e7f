-- ===== src/Encodings/Rle/Reload.antt =====
-- src/encodings/rle.rs: how `reload` starts a run.
use parquet_rs.Encodings.Rle.Decoder.{RleDecoder, reload, reload_rle, reload_run}
use parquet_rs.Encodings.Rle.Format.{Run, repeated, packed, run_values, runs_bytes, IsRun, spell}
use parquet_rs.Encodings.Rle.Bits.{get_whole, get_whole-Got, fields-packed}
use parquet_rs.BitUtil.Batch.Fields.{fields}
use parquet_rs.BitUtil.Reader.{BitReader}
use parquet_rs.BitUtil.Reader.Position.{IsValid, position}
use parquet_rs.BitUtil.Reader.Aligned.{aligned, past, get_aligned_short}
use parquet_rs.BitUtil.Vlq.{get_vlq_int, get_vlq_loop}
use parquet_rs.BitUtil.Vlq.Format.{vlq}
use parquet_rs.BitUtil.Vlq.Get.{Got, unread, get_vlq_int_lem}
use parquet_rs.BitUtil.Scalar.{ceil}
use parquet_rs.BitUtil.Scalar.Laws.{ceil_eight}
use parquet_rs.Prelude.{
  ℕ, ◌+◌, ◌*◌, ◌/◌, ◌%◌, ◌^◌, ◌≤◌, ◌<◌, List, [], ◌∷◌, ◌++◌, length, length-drop, drop, replicate,
  true, false, some, ok, bit_and-one, ◌≡◌, refl, sym, ap, ap₂, ◌∙◌, arith, two_pow_mono,
  two_pow_pos, append_nil,
}
use parquet_rs.Prelude.Bytes.{from_le, to_le, length-to_le, from_le-to_le, byte_pow-eq-two_pow}
use native.Mathlib.Nat.{mod-eq_of_lt}
use mathlib.Core.List.{append_assoc}
use parquet_rs.Encodings.Rle.Reading.{Reading, unread_at, spent_lem, next_run}

groups-Got :
    (w groups : ℕ) (vs : List ℕ) (runs : List Run) (r : BitReader)
    → IsValid r
    → unread r ≡ to_le (w * groups) (spell w vs) ++ runs_bytes w runs
    → Got (runs_bytes w runs) r (past (length (to_le (w * groups) (spell w vs))) r)
groups-Got w groups vs runs r valid front =
    get_whole-Got (to_le (w * groups) (spell w vs)) (runs_bytes w runs) r valid front

module _ (w : ℕ) (narrow : w ≤ 64) where
  value_bytes : (v : ℕ) → v < 2 ^ w → from_le (to_le ((w + 7) / 8) v) ≡ v
  value_bytes v small =
      from_le-to_le ((w + 7) / 8) v
      ∙ mod-eq_of_lt (
          omega (
            arith,
            small,
            byte_pow-eq-two_pow ((w + 7) / 8),
            two_pow_mono w (8 * ((w + 7) / 8)) (omega arith),
          ))

  -- A run of one value.
  reload_rle_lem :
      (count v : ℕ) (runs : List Run) (r : BitReader) (d : RleDecoder)
      → d.bit_width ≡ w
      → d.bit_packed_left ≡ 0
      → IsRun w (repeated count v)
      → IsValid r
      → unread r ≡ to_le ((w + 7) / 8) v ++ runs_bytes w runs
      → (d' : RleDecoder) × (reload_rle (2 * count) r d ≡ ok (true, d'))
        × Reading w (replicate count v) runs d'
  unfolding reload_rle
  reload_rle_lem count v runs r d width spent run valid front =
      let bytes = to_le ((w + 7) / 8) v in
      let r' = past (length bytes) r in
      let got = get_whole-Got bytes (runs_bytes w runs) r valid front in
      let d' : RleDecoder = record d {
        bit_reader = some r';
        rle_left = 2 * count / 2 % 2 ^ 32;
        current_value = some v;
      } in
      let left : d'.rle_left ≡ count = omega (arith, run.0) in
      (
        d',
        rw (sized, get_whole bytes (runs_bytes w runs) r valid front, value_bytes v run.1) refl,
        record {
          reader = r';
          value = v;
          has_reader = refl;
          valid = got.valid;
          width = width;
          has_value = λ h. refl;
          small = run.1;
          values =
              sym (append_nil (replicate count v))
              ∙ ap₂ (λ (c k : ℕ). replicate c v ++ fields r'.buffer d.bit_width k (position r'))
                  (sym left) (sym spent);
          room = omega (arith, got.valid.room, none_packed);
          others =
              ap (λ (k : ℕ). drop ((position r' + k + 7) / 8) r'.buffer) none_packed
              ∙ unread_at r' (runs_bytes w runs) got.left;
        },
      )
    where
      sized : ceil d.bit_width 8 ≡ length (to_le ((w + 7) / 8) v)
      sized = ap (λ (k : ℕ). ceil k 8) width ∙ ceil_eight w ∙ sym (length-to_le ((w + 7) / 8) v)

      none_packed : w * d.bit_packed_left ≡ 0
      none_packed = ap (λ (k : ℕ). w * k) spent ∙ omega arith

  -- A run of groups: its bytes are all the reader has before the other runs.
  reload_packed_lem :
      (groups : ℕ) (vs : List ℕ) (runs : List Run) (r : BitReader) (d : RleDecoder)
      → d.bit_width ≡ w
      → d.rle_left ≡ 0
      → IsRun w (packed groups vs)
      → IsValid r
      → r.bit_offset ≡ 0
      → unread r ≡ to_le (w * groups) (spell w vs) ++ runs_bytes w runs
      → Reading w vs runs
          (record d { bit_reader = some r; bit_packed_left = (2 * groups + 1) / 2 * 8 % 2 ^ 32 })
  reload_packed_lem groups vs runs r d width spent run valid flat front = record {
    reader = r;
    value = 0;
    has_reader = refl;
    valid = valid;
    width = width;
    has_value = λ h. absurd (omega (arith, h, spent));
    small = two_pow_pos w;
    values =
        sym (fields-packed w groups vs (runs_bytes w runs) r valid flat run.2 run.1 front)
        ∙ ap₂ (λ (k n : ℕ). fields r.buffer n k (position r)) (sym left) (sym width)
        ∙ ap
            (λ (c : ℕ).
              replicate c 0
              ++ fields r.buffer d.bit_width ((2 * groups + 1) / 2 * 8 % 2 ^ 32) (position r))
            (sym spent);
    room = omega (
      arith,
      end_bits,
      flat,
      ceil_eight r.bit_offset,
      length-to_le (w * groups) (spell w vs),
      (groups-Got w groups vs runs r valid front).valid.room,
    );
    others =
        ap (λ (k : ℕ). drop k r.buffer)
          (omega (
            arith,
            end_bits,
            flat,
            ceil_eight 0,
            ceil_eight r.bit_offset,
            length-to_le (w * groups) (spell w vs),
          ))
        ∙ (groups-Got w groups vs runs r valid front).left;
  }
    where
      left : (2 * groups + 1) / 2 * 8 % 2 ^ 32 ≡ 8 * groups
      left = omega (arith, run.0)

      end_bits : w * ((2 * groups + 1) / 2 * 8 % 2 ^ 32) ≡ 8 * (w * groups)
      end_bits = ap (λ (k : ℕ). w * k) left ∙ omega arith

reload_run_even :
    (count : ℕ) (r : BitReader) (d : RleDecoder)
    → reload_run (2 * count) r d ≡ reload_rle (2 * count) r d
unfolding reload_run
reload_run_even count r d = ground (arith, bit_and-one (2 * count))

reload_run_odd :
    (groups : ℕ) (r : BitReader) (d : RleDecoder)
    → reload_run (2 * groups + 1) r d
      ≡ ok (
        true,
        record d { bit_reader = some r; bit_packed_left = (2 * groups + 1) / 2 * 8 % 2 ^ 32 },
      )
unfolding reload_run
reload_run_odd groups r d = ground (arith, bit_and-one (2 * groups + 1))

reload-reload_run :
    (d : RleDecoder) (r r' : BitReader) (indicator : ℕ)
    → d.bit_reader ≡ some r
    → get_vlq_int r ≡ ok (some indicator, r')
    → reload d ≡ reload_run indicator r' d
unfolding reload reload_run reload_rle
reload-reload_run d r r' indicator has_reader e = rw (has_reader, e) refl

-- `reload` begins the next run.
pub reload_lem :
    (w : ℕ) (run : Run) (runs : List Run) (d : RleDecoder)
    → w ≤ 64
    → IsRun w run
    → Reading w [] (run ∷ runs) d
    → (d' : RleDecoder) × (reload d ≡ ok (true, d')) × Reading w (run_values run) runs d'
reload_lem w (repeated count v) runs d narrow is_run reading =
    let front =
      next_run d reading
      ∙ append_assoc (vlq (2 * count)) (to_le ((w + 7) / 8) v) (runs_bytes w runs) in
    let (r1, e, got) =
      get_vlq_int_lem (2 * count) (to_le ((w + 7) / 8) v ++ runs_bytes w runs) reading.reader
        reading.valid (omega (arith, is_run.0)) front in
    let (d', e', reading') =
      reload_rle_lem w narrow count v runs r1 d reading.width (spent_lem d reading).1 is_run
        got.valid got.left in
    (
      d',
      reload-reload_run d reading.reader r1 (2 * count) reading.has_reader e
          ∙ reload_run_even count r1 d
          ∙ e',
      reading',
    )
reload_lem w (packed groups vs) runs d narrow is_run reading =
    let front =
      next_run d reading
      ∙ append_assoc (vlq (2 * groups + 1)) (to_le (w * groups) (spell w vs)) (runs_bytes w runs) in
    let (r1, e, got) =
      get_vlq_int_lem (2 * groups + 1) (to_le (w * groups) (spell w vs) ++ runs_bytes w runs)
        reading.reader reading.valid (omega (arith, is_run.0)) front in
    (
      record d { bit_reader = some r1; bit_packed_left = (2 * groups + 1) / 2 * 8 % 2 ^ 32 },
      reload-reload_run d reading.reader r1 (2 * groups + 1) reading.has_reader e
          ∙ reload_run_odd groups r1 d,
      reload_packed_lem w narrow groups vs runs r1 d reading.width (spent_lem d reading).0 is_run
          got.valid got.full_bytes got.left,
    )

-- Behind the last run there is nothing to load.
pub reload_end :
    (w : ℕ) (d : RleDecoder) (reading : Reading w [] [] d)
    → reload d ≡ ok (false, record d { bit_reader = some reading.reader })
unfolding reload get_vlq_int get_vlq_loop
reload_end w d reading =
    rw (reading.has_reader, get_aligned_short 1 reading.reader reading.valid nothing) refl
  where
    nothing : reading.reader.total_bytes < aligned reading.reader + 1
    nothing = omega (
      arith,
      ap length (next_run d reading),
      length-drop (aligned reading.reader) reading.reader.buffer,
      reading.valid.fits,
    )
