-- ===== src/TlsPsPool/Blocks.antt =====
-- The blocks of a pool of one size, and when a pool is well formed.
use np_alloc.Prelude.{
  ℕ, ◌+◌, ◌*◌, ◌^◌, ◌≤◌, ◌<◌, ◌≡◌, ◌≢◌, ◌⊎◌, ap, Bool, true, false, List, arith, has, dec_lt,
  ℕ_discrete,
}
use np_alloc.Memory.{Memory, read64}
use np_alloc.LfStack.{Ptr}
use np_alloc.LfStack.Chain.{Chain}
use np_alloc.Mmap.Chunks.{mib}
use np_alloc.TlsPsPool.{TlsPool, sizeof_pool, pool_curr}

-- `k c` blocks have been carved from the chunk `c`. Block `p` is one of them.
abbrev pub Block : List Ptr → (Ptr → ℕ) → ℕ → Ptr → Type 0
Block cs k size p =
    (c : Ptr) × (has c cs ≡ true) × (j : ℕ) × (j < k c) × (p ≡ c + sizeof_pool + j * size)

abbrev pub Apart : ℕ → ℕ → ℕ → ℕ → Type 0
Apart a m b n = (a + m ≤ b) ⊎ (b + n ≤ a)

-- The layout of the chunks `cs`.
pub record IsLaid (m : Memory) (cs : List Ptr) (k : Ptr → ℕ) (size : ℕ) : Type 0 where
  pub wide : 8 ≤ size
  pub far : (c d : Ptr) → has c cs ≡ true → has d cs ≡ true → c ≢ d → Apart c mib d mib
  pub low : (c : Ptr) → has c cs ≡ true → (0 < c) × (c + mib < 2 ^ 63)
  pub curr : (c : Ptr) → has c cs ≡ true → read64 m (pool_curr c) ≡ c + sizeof_pool + k c * size
  pub fits : (c : Ptr) → has c cs ≡ true → sizeof_pool + k c * size ≤ mib

-- `fl` are the free blocks, `live` those that the program uses.
pub record IsPool (m : Memory) (t : TlsPool) (cs fl : List Ptr) (k : Ptr → ℕ) (live : Ptr → Bool)
    : Type 0 where
  pub laid : IsLaid m cs k t.alloc_size
  pub unit : t.chunk_size ≡ mib
  pub chunks : Chain (read64 m) t.head cs
  pub frees : Chain (read64 m) t.free fl
  pub free : (p : Ptr) → has p fl ≡ true → Block cs k t.alloc_size p
  pub used : (p : Ptr) → live p ≡ true → Block cs k t.alloc_size p
  pub apart : (p : Ptr) → live p ≡ true → has p fl ≡ false

pub next_index : (i j size : ℕ) → i < j → i * size + size ≤ j * size
next_index i j size lt = grind arith

module _ {m : Memory} {cs : List Ptr} {k : Ptr → ℕ} {size : ℕ} (v : IsLaid m cs k size) where
  -- A block lies in its chunk, behind the header.
  pub Block-inside :
      (p c j : ℕ)
      → has c cs ≡ true
      → j < k c
      → p ≡ c + sizeof_pool + j * size
      → (c + sizeof_pool ≤ p) × (p + size ≤ c + mib)
  Block-inside p c j h lt e = omega (arith, next_index j (k c) size lt, v.fits c h)

  -- Where the chunks are laid out well, two blocks that are not the same do not overlap.
  pub Block-Apart :
      (p q : Ptr) → Block cs k size p → Block cs k size q → p ≢ q → Apart p size q size
  Block-Apart p q (c, h, i, lt, e) (d, h', j, lt', f) ne = elim (ℕ_discrete c d) [
    | yes same ↦ elim (dec_lt i j) [
      | yes below ↦ omega (arith, next_index i j size below)
      | no above ↦ elim (dec_lt j i) [
        | yes below ↦ omega (arith, next_index j i size below)
        | no above' ↦
            let eq : i ≡ j = omega arith in absurd (ne (omega (arith, ap (λ (x : ℕ). x * size) eq)))
      ]
    ]
    | no other ↦
        omega (arith, Block-inside p c i h lt e, Block-inside q d j h' lt' f, v.far c d h h' other)
  ]

  -- Nor a header of a chunk.
  pub Block-header :
      (p : Ptr) → Block cs k size p → (d : Ptr) → has d cs ≡ true → Apart p size d sizeof_pool
  Block-header p (c, h, i, lt, e) d h' = elim (ℕ_discrete c d) [
    | yes same ↦ omega (arith, Block-inside p c i h lt e)
    | no other ↦ omega (arith, Block-inside p c i h lt e, v.far c d h h' other)
  ]

  -- The block that would be carved next is none of the blocks.
  pub next-not-Block :
      (p c : Ptr)
      → has c cs ≡ true
      → p ≡ c + sizeof_pool + k c * size
      → p + size ≤ c + mib
      → Block cs k size p
      → ⊥
  next-not-Block p c h e room (d, h', j, lt, f) = elim (ℕ_discrete c d) [
    | yes same ↦ omega (arith, next_index j (k d) size lt, ap (λ (x : ℕ). k x * size) same, v.wide)
    | no other ↦ omega (arith, Block-inside p d j h' lt f, v.far c d h h' other, v.wide)
  ]
