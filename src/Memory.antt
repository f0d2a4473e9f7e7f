-- ===== src/Memory.antt =====
-- src/util/memory.rs: `BufferPtr`, a slice of a shared buffer; `ByteBufferPtr` holds bytes. The memory
-- tracker, which only counts, is left out.
pub mod Slices
use parquet_rs.Prelude.{
  ℕ, ◌+◌, ◌-◌, List, length, take, drop, Outcome, ok, ◌>>◌, ◌>>=◌, assert, get_elem?, unwrap, leb,
  ltb,
}

pub record BufferPtr {ℓ} (A : Type ℓ) : Type ℓ where
  pub items : List A
  pub start : ℕ
  pub len : ℕ

module _ {ℓ} {A : Type ℓ} where
  unfoldable pub new : List A → BufferPtr A
  new v = record { items = v; start = 0; len = length v }

  -- The slice of the vector panics when it ends behind the vector.
  unfoldable pub content : BufferPtr A → Outcome (List A)
  content p = do
    assert (leb (p.start + p.len) (length p.items))
    ok (take p.len (drop p.start p.items))

  unfoldable pub with_range : ℕ → ℕ → BufferPtr A → Outcome (BufferPtr A)
  with_range start len p = do
    assert (leb start p.len)
    assert (leb (start + len) p.len)
    ok (record p { start = start; len = len })

  unfoldable pub start_from : ℕ → BufferPtr A → Outcome (BufferPtr A)
  start_from start p = do
    assert (leb start p.len)
    ok (record p { start = p.start + start; len = p.len - start })

  unfoldable pub range : ℕ → ℕ → BufferPtr A → Outcome (BufferPtr A)
  range start len p = do
    assert (leb (start + len) p.len)
    ok (record p { start = p.start + start; len = len })

  unfoldable pub index : ℕ → BufferPtr A → Outcome A
  index i p = do assert (ltb i p.len); unwrap (get_elem? p.items (p.start + i))
