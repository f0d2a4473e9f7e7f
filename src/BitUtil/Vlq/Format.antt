-- ===== src/BitUtil/Vlq/Format.antt =====
-- The format of variable-length integers (VLQ) that src/util/bit_util.rs reads and writes: seven
-- bits a byte, lowest first, the top bit set on every byte but the last.
use parquet_rs.Prelude.{
  ℕ, zero, suc, ◌+◌, ◌/◌, ◌%◌, ◌≤◌, ◌<◌, List, [], ◌∷◌, length, All, ltb, if◌then◌else◌, ◌≡◌, ap,
  arith,
}
use parquet_rs.Prelude.Bytes.{IsByte}

-- The bytes of `v`, when `k` bytes may follow the first.
unfoldable pub vlq_bytes : ℕ → ℕ → List ℕ
vlq_bytes zero v = v % 128 ∷ []
vlq_bytes (suc k) v =
    let rest = vlq_bytes k (v / 128) in if ltb v 128 then v ∷ [] else (v % 128 + 128) ∷ rest

-- A `u64` takes ten bytes at most.
abbrev pub vlq : ℕ → List ℕ
vlq v = vlq_bytes 9 v

pub length-vlq_bytes : (k v : ℕ) → (1 ≤ length (vlq_bytes k v)) × (length (vlq_bytes k v) ≤ k + 1)
unfolding vlq_bytes
length-vlq_bytes zero v = omega arith
length-vlq_bytes (suc k) v = ground (arith, length-vlq_bytes k (v / 128))

pub vlq_bytes-IsByte : (k v : ℕ) → All IsByte (vlq_bytes k v)
unfolding vlq_bytes
vlq_bytes-IsByte zero v = omega arith
vlq_bytes-IsByte (suc k) v = ground (arith, vlq_bytes-IsByte k (v / 128))

pub vlq_bytes_last : (k v : ℕ) → v < 128 → vlq_bytes k v ≡ v ∷ []
unfolding vlq_bytes
vlq_bytes_last zero v h = ap (λ (b : ℕ). b ∷ []) (let e : v % 128 ≡ v = omega arith in e)
vlq_bytes_last (suc k) v h = ground arith

pub vlq_bytes_more :
    (k v : ℕ) → 128 ≤ v → vlq_bytes (suc k) v ≡ (v % 128 + 128) ∷ vlq_bytes k (v / 128)
unfolding vlq_bytes
vlq_bytes_more k v h = ground arith
