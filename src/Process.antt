-- ===== src/Process.antt =====
-- src/np_alloc.cpp as all threads of a process use it: the pools by size of any number of threads
-- over one global pool, with blocks that any thread may free. The pools of a thread are there from
-- the start here; `ThreadLocalPool.Current` has the first call, which makes them.
pub mod Table
pub mod Held
pub mod Allocate
pub mod Calls
pub mod Release
pub mod Large
pub mod LargeCalls
pub mod Writes
pub mod Runs
pub mod Steps
pub mod Start
pub mod Fresh
pub mod Persist
pub mod Safety
use np_alloc.Prelude.{ℕ, ◌+◌, ◌*◌, ◌^◌, ◌≤◌, ◌<◌, ◌≡◌, List, Option, none, some, length, get_elem?}
use np_alloc.Memory.{Memory, read64}
use np_alloc.LfStack.{Ptr}
use np_alloc.Mmap.{Os}
use np_alloc.TlsPsPool.{TlsPool, World}
use np_alloc.ThreadLocalPool.{ThreadPool}
use np_alloc.ThreadLocalPool.Checks.{Fenced}
use np_alloc.Allocator.{Books, IsAllocator}

-- The number among all pools of pool `i` of thread `k`, where each thread has `n`.
abbrev pub number : (n k i : ℕ) → ℕ
number n k i = k * n + i

-- The sizes, and the table that the threads have of them, up to `max` bytes.
pub record IsTable (sizes : List ℕ) (table : ℕ → Option ℕ) (max : ℕ) : Type 0 where
  pub small : max < 2 ^ 63
  pub fits :
      (n : ℕ)
      → 0 < n
      → n ≤ max
      → (i : ℕ) × (size : ℕ) × (table n ≡ some i) × (get_elem? sizes i ≡ some size) × (n ≤ size)

-- The pools of thread `k`, among all.
pub record IsThread (sizes : List ℕ) (table : ℕ → Option ℕ) (max : ℕ) (pools : ℕ → TlsPool) (k : ℕ)
    (tp : ThreadPool) : Type 0 where
  pub same_table : tp.mapping_pool ≡ table
  pub same_max : tp.max_alloc_size ≡ max
  pub pool :
      (i size : ℕ)
      → get_elem? sizes i ≡ some size
      → (get_elem? tp.tls_pool i ≡ some (pools (number (length sizes) k i)))
        × ((pools (number (length sizes) k i)).alloc_size ≡ size)

-- The block at `h` holds `bytes` bytes for the program, with its header and its fences.
pub record IsHeld (sizes : List ℕ) (table : ℕ → Option ℕ) (max : ℕ) (m : Memory) (live : Ptr → ℕ)
    (h bytes : ℕ) : Type 0 where
  pub index : ℕ
  pub mapped : table (bytes + 64) ≡ some index
  pub sized : get_elem? sizes index ≡ some (live h)
  pub fits : bytes + 64 ≤ live h
  pub small : bytes + 64 ≤ max
  pub header : read64 m h ≡ bytes
  pub fences : Fenced m h bytes

-- All threads stand in the memory; `asked h` is the number of bytes that the program has asked for
-- at the block `h`, if it uses that block.
pub record IsProcess (os : Os) (sizes : List ℕ) (table : ℕ → Option ℕ) (max : ℕ) (w : World os)
    (threads : ℕ → ThreadPool) (asked : Ptr → Option ℕ) (pools : ℕ → TlsPool) (b : Books)
    : Type 0 where
  pub tabled : IsTable sizes table max
  pub stands : IsAllocator w.memory w.global pools b
  pub thread : (k : ℕ) → IsThread sizes table max pools k (threads k)
  pub unused : (h : Ptr) → asked h ≡ none → b.live h ≡ 0
  pub held : (h bytes : ℕ) → asked h ≡ some bytes → IsHeld sizes table max w.memory b.live h bytes
