-- ===== src/GlobalPool.antt =====
-- src/global_pool.h: the pool of chunks that all threads share, and the sizes that its constructor
-- tries.
pub mod Create
pub mod Singleton
pub mod Report
use np_alloc.Prelude.{ℕ, zero, suc, ◌*◌, ◌/◌, Bool, true, false, leb, ◌==◌}
use np_alloc.Common.{mb}
use np_alloc.Memory.{Memory}
use np_alloc.Mmap.{Mmap, Os, Result, create, reserve, default_whole_chunk_size}
use np_alloc.Mmap

-- `mm_`, the only member.
abbrev pub GlobalPool : Type 0
GlobalPool = Mmap

module _ (os : Os) where
  -- `for (size = …; size >= 64_MB; size /= 2)`
  unfoldable pub fall_back : (fuel : ℕ) → GlobalPool → os.State → (size : ℕ) → GlobalPool × os.State
  fall_back zero p s size = (p, s)
  fall_back (suc fuel) p s size =
      let (r, p', s') = reserve os p s size in
      elim (leb (mb 64) size) [
        | false ↦ (p, s)
        | true ↦ elim (r == 0) [ true ↦ fall_back fuel p' s' (size / 2) | false ↦ (p', s') ]
      ]

  -- Seven rounds are enough: the seventh size is below 64 MB.
  unfoldable pub construct : os.State → GlobalPool × os.State
  construct s =
      let (r, p, s') = reserve os (create os.page_size) s default_whole_chunk_size in
      elim (r == 0) [ true ↦ fall_back 7 p s' (default_whole_chunk_size / 2) | false ↦ (p, s') ]

  unfoldable pub alloc_chunk :
      (ndebug : Bool) → Memory → GlobalPool → os.State → Result (ℕ × GlobalPool × os.State)
  alloc_chunk ndebug m p s = Mmap.alloc_chunk os ndebug m p s

unfoldable pub free_chunk : Memory → GlobalPool → ℕ → Memory × GlobalPool
free_chunk m p q = Mmap.free_chunk m p q

unfoldable pub get_chunk_size : GlobalPool → ℕ
get_chunk_size p = p.chunk_size
