-- ===== src/GlobalPool/Report.antt =====
-- What the global pool prints: its destructor, `del_global_pool` and `np_debug_print`.
use np_alloc.Prelude.{ℕ, ◌==◌, Bool, true, [], ◌++◌, Text, codes, Show, Option, if◌then◌else◌}
use np_alloc.Memory.{Memory}
use np_alloc.Mmap.{Os, Result, ok}
use np_alloc.Mmap as Mmap
use np_alloc.Mmap.Report as MmapReport
use np_alloc.GlobalPool.{GlobalPool}

module _ (os : Os) (show : Show) where
  -- `~global_pool`: its line, and then the destructor of `mm_`.
  unfoldable pub destroy : (thread_id this : ℕ) → GlobalPool → os.State → Text × os.State
  destroy thread_id this p s = (
    codes "["
        ++ show true 0 thread_id
        ++ codes "] ~global_pool() this=["
        ++ show true 0 this
        ++ codes "]\n",
    Mmap.destroy os p s,
  )

  -- `t_delete(ptr)` and the line before it, where `g_pool` held `ptr`.
  unfoldable pub delete : (thread_id ptr : ℕ) → GlobalPool → os.State → Text × os.State
  unfolding destroy
  delete thread_id ptr p s =
      let (out, s') = destroy thread_id ptr p s in
      if ptr == 0 then ([], s) else (
        codes "thread ["
            ++ show true 0 thread_id
            ++ codes "]: global pool destroying. pool=["
            ++ show true 0 ptr
            ++ codes "]\n"
            ++ out,
        s',
      )

-- `debug_as_string`
unfoldable pub debug_as_string :
    (show : Show) (ndebug : Bool) (fuel : ℕ) → Memory → GlobalPool → Option (Result Text)
debug_as_string show ndebug fuel m p = MmapReport.debug_as_string show ndebug fuel m p

-- `np_debug_print`: what it prints.
unfoldable pub debug_print :
    (show : Show) (ndebug : Bool) (fuel : ℕ) → Memory → GlobalPool → Option (Result Text)
debug_print show ndebug fuel m p = debug_as_string show ndebug fuel m p
