-- ===== src/Encodings/Rle/Encode/State.antt =====
-- src/encodings/rle.rs: the state of an encoder between two calls of `put`.
use parquet_rs.Encodings.Rle.Encoder.{RleEncoder}
use parquet_rs.Encodings.Rle.Encode.Space.{stream}
use parquet_rs.Encodings.Rle.Format.{Run, IsRun, runs_values}
use parquet_rs.Encodings.Rle.Encode.Holds.{Holds, HoldsOpen}
use parquet_rs.Encodings.Rle.Encode.Space.{DoFit, group_size}
use parquet_rs.Encodings.Rle.Encode.Packed.{IsOpenAt}
use parquet_rs.Prelude.Bytes.{IsByte}
use parquet_rs.Prelude.{
  ℕ, ◌+◌, ◌*◌, ◌/◌, ◌^◌, ◌≤◌, ◌<◌, List, [], ◌++◌, length, take, replicate, All, none, some, false,
  ◌≡◌, ◌⊎◌, inl, inr,
}

-- What no call changes, and the room for `total` values behind the bytes `head`.
pub record Common (head : List ℕ) (n total : ℕ) (e : RleEncoder) : Type 0 where
  pub head_bytes : All IsByte head
  pub width : e.bit_width ≡ n
  pub narrow : e.bit_width ≤ 64
  pub not_full : e.buffer_full ≡ false
  pub slots : length e.buffered_values ≡ 8
  pub small : All (λ v. v < 2 ^ e.bit_width) e.buffered_values
  pub current : e.current_value < 2 ^ e.bit_width
  pub room : length head + (total + 7) / 8 * group_size e.bit_width ≤ e.bit_writer.max_bytes

-- The writer ends with a whole run.
pub record Between (head : List ℕ) (runs : List Run) (e : RleEncoder) : Type 0 where
  pub nowhere : e.indicator_byte_pos ≡ none
  pub holds : Holds (stream head e.bit_width runs) e.bit_writer

-- The writer is inside a bit-packed run.
pub record Inside (head : List ℕ) (runs : List Run) (written : List ℕ) (e : RleEncoder)
    : Type 0 where
  pub there : e.indicator_byte_pos ≡ some (length (stream head e.bit_width runs))
  pub holds : HoldsOpen e.bit_width (stream head e.bit_width runs) written e.bit_writer

-- The bit-packed run that is being written, of `groups` groups so far.
pub record Place (head : List ℕ) (runs : List Run) (written : List ℕ) (groups : ℕ) (e : RleEncoder)
    : Type 0 where
  pub count : e.bit_packed_count ≡ 8 * groups
  pub size : length written ≡ 8 * groups
  pub few : groups < 63
  pub all_small : All (λ v. v < 2 ^ e.bit_width) written
  pub kind :
      ((groups ≡ 0) × (written ≡ []) × Between head runs e)
      ⊎ ((0 < groups) × Inside head runs written e)

-- Fewer than eight values are buffered, and the last of them are the current value.
pub record Short (head : List ℕ) (runs : List Run) (written : List ℕ) (groups : ℕ) (vs : List ℕ)
    (e : RleEncoder) : Type 0 where
  pub place : Place head runs written groups e
  pub room_left : e.num_buffered_values < 8
  pub front : List ℕ
  pub tail :
      take e.num_buffered_values e.buffered_values
      ≡ front ++ replicate e.repeat_count e.current_value
  pub all : vs ≡ runs_values runs ++ (written ++ take e.num_buffered_values e.buffered_values)

-- Eight or more equal values are counted, and none is buffered.
pub record Long (head : List ℕ) (runs : List Run) (vs : List ℕ) (e : RleEncoder) : Type 0 where
  pub between : Between head runs e
  pub count : e.bit_packed_count ≡ 0
  pub unbuffered : e.num_buffered_values ≡ 0
  pub many : 8 ≤ e.repeat_count
  pub all : vs ≡ runs_values runs ++ replicate e.repeat_count e.current_value

-- The encoder has been given the values `vs`: the runs that are written, the bit-packed run that is
-- being written and the values that are not written yet are these values, in this order.
pub record Encoding (head : List ℕ) (n total : ℕ) (vs : List ℕ) (e : RleEncoder) : Type 0 where
  pub common : Common head n total e
  pub runs : List Run
  pub are_runs : All (IsRun e.bit_width) runs
  pub do_fit : DoFit e.bit_width runs
  pub state :
      ((written : List ℕ) × (groups : ℕ) × Short head runs written groups vs e)
      ⊎ Long head runs vs e

pub Place-IsOpenAt :
    (head : List ℕ) (runs : List Run) (written : List ℕ) (groups : ℕ) (e : RleEncoder)
    → Place head runs written groups e
    → IsOpenAt e.bit_width (stream head e.bit_width runs) written e.indicator_byte_pos e.bit_writer
Place-IsOpenAt head runs written groups e p = elim p.kind [
  | inl (zero_groups, empty, between) ↦ inl (between.nowhere, empty, between.holds)
  | inr (some_groups, inside) ↦ inr (inside.there, inside.holds)
]
