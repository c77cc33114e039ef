-- ===== src/Allocator.antt =====
-- src/np_alloc.cpp and src/np_mmap.h together: the pools of any number of threads over one global
-- pool, with blocks that any thread may free.
pub mod Layout
pub mod Moves
pub mod Reuse
pub mod Carve
pub mod Supply
pub mod Adopt
pub mod Ways
pub mod Calls
pub mod Start
use np_alloc.Prelude.{ℕ, ◌+◌, ◌*◌, ◌^◌, ◌≤◌, ◌<◌, ◌≡◌, ◌≢◌, ◌==◌, Bool, true, false, List, has}
use np_alloc.Memory.{Memory, read64}
use np_alloc.LfStack.{Ptr}
use np_alloc.LfStack.Chain.{Chain}
use np_alloc.Mmap.{Mmap}
use np_alloc.Mmap.Chunks.{mib}
use np_alloc.Mmap.Chunks as Chunks
use np_alloc.TlsPsPool.{TlsPool, sizeof_pool, pool_curr}

-- The chunks in use, each with the size of its blocks and the number that has been carved.
pub record Shape : Type 0 where
  pub given : Ptr → Bool
  pub size : Ptr → ℕ
  pub count : Ptr → ℕ

-- Block `p` of `b` bytes has been carved from a chunk.
abbrev pub IsBlock : Shape → (b : ℕ) → Ptr → Type 0
IsBlock s b p =
    (c : Ptr) × (s.given c ≡ true)
    × (s.size c ≡ b)
    × (j : ℕ) × (j < s.count c)
    × (p ≡ c + sizeof_pool + j * b)

-- The pool `t`, with the chunks `cs` and the free blocks `fl`.
pub record IsLocal (m : Memory) (s : Shape) (t : TlsPool) (cs fl : List Ptr) : Type 0 where
  pub unit : t.chunk_size ≡ mib
  pub wide : 8 ≤ t.alloc_size
  pub fit : sizeof_pool + t.alloc_size ≤ mib
  pub chunks : Chain (read64 m) t.head cs
  pub frees : Chain (read64 m) t.free fl
  pub mine : (c : Ptr) → has c cs ≡ true → (s.given c ≡ true) × (s.size c ≡ t.alloc_size)
  pub free : (p : Ptr) → has p fl ≡ true → IsBlock s t.alloc_size p

-- What the pools and the program have: `made` chunks, of which `waiting` are in the global pool's
-- free list; the chunks and the free blocks of each pool; and `live p` bytes at the block `p` that
-- the program uses, or 0.
pub record Books : Type 0 where
  pub made : ℕ
  pub waiting : List Ptr
  pub shape : Shape
  pub chunks : ℕ → List Ptr
  pub frees : ℕ → List Ptr
  pub live : Ptr → ℕ

-- The pools `pools i`, of whatever threads and sizes, stand in `m` as the books say. A block that is
-- free may be in the pool of another thread than the one that has its chunk.
pub record IsAllocator (m : Memory) (mm : Mmap) (pools : ℕ → TlsPool) (b : Books) : Type 0 where
  pub global : Chunks.IsPool m mm b.made b.waiting b.shape.given
  pub high : mm.ptr + 4097 * mib < 2 ^ 63
  pub wide : (c : Ptr) → b.shape.given c ≡ true → 8 ≤ b.shape.size c
  pub curr :
      (c : Ptr)
      → b.shape.given c ≡ true
      → read64 m (pool_curr c) ≡ c + sizeof_pool + b.shape.count c * b.shape.size c
  pub fits :
      (c : Ptr) → b.shape.given c ≡ true → sizeof_pool + b.shape.count c * b.shape.size c ≤ mib
  pub local : (i : ℕ) → IsLocal m b.shape (pools i) (b.chunks i) (b.frees i)
  pub own : (i j : ℕ) (c : Ptr) → i ≢ j → has c (b.chunks i) ≡ true → has c (b.chunks j) ≡ false
  pub alone : (i j : ℕ) (p : Ptr) → i ≢ j → has p (b.frees i) ≡ true → has p (b.frees j) ≡ false
  pub used : (p : Ptr) → b.live p ≢ 0 → IsBlock b.shape (b.live p) p
  pub idle : (i : ℕ) (p : Ptr) → has p (b.frees i) ≡ true → b.live p ≡ 0
