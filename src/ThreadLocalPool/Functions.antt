-- ===== src/ThreadLocalPool/Functions.antt =====
-- What src/np_alloc.h declares, and the code behind it.
use np_alloc.Prelude.{ℕ, ◌≡◌, refl, Bool, List, Option, Text, Show}
use np_alloc.LfStack.{null}
use np_alloc.Mmap.{Os, Result, ok}
use np_alloc.GlobalPool.Report.{debug_print}
use np_alloc.TlsPsPool.{World}
use np_alloc.ThreadLocalPool.{Heap}
use np_alloc.ThreadLocalPool.Current.{Current, allocate, allocate_plain, release}

-- The functions, as one thread calls them. `thread_id` is that of the thread.
pub record Functions (os : Os) (heap : Heap) : Type 0 where
  pub alloc :
      World os
      → heap.State
      → Current
      → (bytes thread_id : ℕ) → Result ((ℕ × World os × heap.State) × Current)
  pub alloc_at :
      World os
      → heap.State
      → Current
      → (bytes file line thread_id : ℕ) → Result ((ℕ × World os × heap.State) × Current)
  pub free :
      World os → heap.State → Current → (ptr : ℕ) → Result ((World os × heap.State) × Current)
  pub print : (fuel : ℕ) → World os → Option (Result Text)

abbrev pub np_functions :
    (os : Os) (heap : Heap) (show : Show) (ndebug : Bool) (mapping : ℕ) (sizes : List ℕ)
    (no_debug_info : ℕ)
    → Functions os heap
np_functions os heap show ndebug mapping sizes no_debug_info = record {
  alloc = allocate_plain os heap ndebug mapping sizes no_debug_info;
  alloc_at = allocate os heap ndebug mapping sizes;
  free = release os heap ndebug mapping sizes;
  print = λ fuel w. debug_print show ndebug fuel w.memory w.global;
}

-- `np_alloc(bytes)` is `np_alloc` with a fixed file and the line 0; freeing null does nothing.
pub alloc-alloc_at :
    (os : Os) (heap : Heap) (show : Show) (ndebug : Bool) (mapping : ℕ) (sizes : List ℕ)
    (no_debug_info : ℕ)
    → (w : World os) (s : heap.State) (c : Current) (bytes thread_id : ℕ)
    → ((np_functions os heap show ndebug mapping sizes no_debug_info).alloc w s c bytes thread_id
        ≡ (np_functions os heap show ndebug mapping sizes no_debug_info).alloc_at w s c bytes
            no_debug_info 0 thread_id)
      × ((np_functions os heap show ndebug mapping sizes no_debug_info).free w s c null
          ≡ ok ((w, s), c))
unfolding allocate_plain release
alloc-alloc_at os heap show ndebug mapping sizes no_debug_info w s c bytes thread_id = (refl, refl)
