-- ===== src/ThreadLocalPool/Current.antt =====
-- src/np_alloc.cpp, `thread_local_pool::get`, its destructor, and the functions of src/np_alloc.h:
-- the pool of the running thread, which the first call makes and a callback at the thread's end
-- deletes.
pub mod Life
use np_alloc.Prelude.{ℕ, zero, suc, ◌==◌, Bool, List, [], ◌∷◌, Option, none, some, if◌then◌else◌}
use np_alloc.Common.{AlignedHeap, aligned_free}
use np_alloc.LfStack.{null}
use np_alloc.Mmap.{Os, Result, ok, fault, ◌>>=◌}
use np_alloc.GlobalPool.{GlobalPool}
use np_alloc.TlsPsPool.{TlsPool, World}
use np_alloc.TlsPsPool as TlsPsPool
use np_alloc.Thread.Exit.{Tls, thread_atexit}
use np_alloc.ThreadLocalPool.{ThreadPool, Heap, init, get_alloc_size_list}
use np_alloc.ThreadLocalPool as ThreadLocalPool

-- `s_pool`, and what it points to. Nothing resets it when the pool is deleted.
pub data Slot : Type 0 where
  unset : Slot
  live : (pool : ThreadPool) → Slot
  dangling : Slot

pub record Current : Type 0 where
  pub s_pool : Slot
  pub tls : Tls

-- The callback that deletes the pool.
abbrev pub delete_callback : ℕ
delete_callback = 0

-- The constructor, where `mapping` is what `aligned_alloc` returns for the table; `none` where `fuel` is not enough for `get_alloc_size_list`.
unfoldable pub construct :
    (fuel : ℕ) (ndebug : Bool) → (mapping : ℕ) → GlobalPool → Option (Result ThreadPool)
construct fuel ndebug mapping g = elim (get_alloc_size_list fuel ndebug) [
  | none ↦ none
  | some sizes ↦ some (sizes >>= λ l. init ndebug mapping l g)
]

-- `~thread_local_pool`, before the destructors of its members: the table goes back.
unfoldable pub free_table : (heap : AlignedHeap) → heap.State → (mapping_pool : ℕ) → heap.State
free_table heap s mapping_pool = aligned_free heap s mapping_pool

-- `get`, where `sizes` is what `get_alloc_size_list` makes.
unfoldable pub get :
    (ndebug : Bool) → (mapping : ℕ) → List ℕ → GlobalPool → (s_pool : Slot) → Tls → Result Current
get ndebug mapping sizes g unset tls = do
  pool ← init ndebug mapping sizes g
  ok (record { s_pool = live pool; tls = thread_atexit tls (some delete_callback) })
get ndebug mapping sizes g (live pool) tls = ok (record { s_pool = live pool; tls = tls })
get ndebug mapping sizes g dangling tls = ok (record { s_pool = dangling; tls = tls })

module _ (os : Os) (heap : Heap) (ndebug : Bool) (mapping : ℕ) (sizes : List ℕ) where
  -- A call of a member function of the pool. Using a pool that is deleted is undefined.
  unfoldable pub with_current :
      {A : Type 0}
      → World os
      → Current
      → (ThreadPool → Result (A × ThreadPool))
      → Result (A × Current)
  with_current w c f = get ndebug mapping sizes w.global c.s_pool c.tls >>= λ c'. elim c'.s_pool [
    | unset ↦ fault
    | live pool ↦ do (a, pool') ← f pool; ok (a, record c' { s_pool = live pool' })
    | dangling ↦ fault
  ]

  -- `np_alloc` with a file and a line.
  unfoldable pub allocate :
      World os
      → heap.State
      → Current
      → (bytes file line thread_id : ℕ) → Result ((ℕ × World os × heap.State) × Current)
  unfolding with_current
  allocate w s c bytes file line thread_id =
      with_current w c
        (λ pool. ThreadLocalPool.alloc os heap ndebug w s pool bytes file line thread_id)

  -- `np_alloc(bytes)`; the file is the address of "no debug info".
  unfoldable pub allocate_plain :
      (no_debug_info : ℕ)
      → World os
      → heap.State
      → Current
      → (bytes thread_id : ℕ) → Result ((ℕ × World os × heap.State) × Current)
  unfolding allocate
  allocate_plain no_debug_info w s c bytes thread_id =
      allocate w s c bytes no_debug_info 0 thread_id

  -- `np_free`.
  unfoldable pub release :
      World os → heap.State → Current → (ptr : ℕ) → Result ((World os × heap.State) × Current)
  unfolding with_current
  release w s c ptr =
      if ptr == null
      then ok ((w, s), c)
      else with_current w c (λ pool. ThreadLocalPool.dealloc os heap ndebug w s pool ptr)

  -- The destructors of the pools by size, one after another; `none` where one of them does not end.
  -- That of `mapping_pool_` frees the table.
  unfoldable pub deinit_all :
      (fuel : ℕ) → (alive : Bool) → World os → List TlsPool → Option (World os)
  deinit_all fuel alive w [] = some w
  deinit_all fuel alive w (t ∷ ts) = elim (TlsPsPool.destroy os ndebug fuel alive w t) [
    | none ↦ none
    | some (w', t') ↦ deinit_all fuel alive w' ts
  ]

  abbrev pub deleted : Current → Option (World os) → Option (World os × Current)
  deleted c none = none
  deleted c (some w) = some (w, record c { s_pool = dangling })

  -- `internal::t_delete(pool)`, in the callback.
  unfoldable pub delete_pool :
      (fuel : ℕ) → (alive : Bool) → World os → Current → Option (World os × Current)
  unfolding deinit_all
  delete_pool fuel alive w c = elim c.s_pool [
    | unset ↦ some (w, c)
    | live pool ↦ deleted c (deinit_all fuel alive w pool.tls_pool)
    | dangling ↦ some (w, c)
  ]
