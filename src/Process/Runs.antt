-- ===== src/Process/Runs.antt =====
-- What the threads of a process do, one call at a time: `np_alloc`, `np_free` by any thread, and the
-- program's own writes.
use np_alloc.Prelude.{ℕ, ◌+◌, ◌^◌, ◌≤◌, ◌<◌, ◌≡◌, ◌⊎◌, Bool, true, false, List, Option, none, some}
use np_alloc.Memory.{Memory}
use np_alloc.LfStack.{Ptr, update}
use np_alloc.Mmap.{Os, ok}
use np_alloc.TlsPsPool.{TlsPool, World, with_memory}
use np_alloc.ThreadLocalPool.{ThreadPool, Heap, alloc, np_free, user_pointer}
use np_alloc.Allocator.{Books}
use np_alloc.Allocator.Layout.{Same}
use np_alloc.Allocator.Supply.{Commits}
use np_alloc.Process.{IsProcess}
use np_alloc.Process.Large.{HeapLaws, IsLarge}

module _ (os : Os) (heap : Heap) (commits : Commits os) (base : ℕ) (laws : HeapLaws heap base)
    (sizes : List ℕ) (table : ℕ → Option ℕ) (max : ℕ) where
  -- `asked` has the bytes that the program has in blocks of the pools, `big` those in blocks of
  -- `malloc`.
  pub record State : Type 0 where
    pub world : World os
    pub large : heap.State
    pub threads : ℕ → ThreadPool
    pub asked : Ptr → Option ℕ
    pub big : Ptr → Option ℕ

  pub data Step : State → State → Type 0 where
    -- Thread `k` asks for `bytes` bytes, and gets those of the block `h` of a pool.
    allocates :
        {s : State} (k bytes file line thread_id h : ℕ) (w : World os) (r : heap.State)
        (tp : ThreadPool)
        → bytes + 64 ≤ max
        → alloc os heap false s.world s.large (s.threads k) bytes file line thread_id
          ≡ ok ((user_pointer h, w, r), tp)
        → Step s record s {
          world = w;
          large = r;
          threads = update s.threads k tp;
          asked = update s.asked h (some bytes);
        }
    -- Or of a block of `malloc`.
    allocates_large :
        {s : State} (k bytes file line thread_id h : ℕ) (w : World os) (r : heap.State)
        (tp : ThreadPool)
        → max < bytes + 64
        → bytes + 64 < 2 ^ 64
        → alloc os heap false s.world s.large (s.threads k) bytes file line thread_id
          ≡ ok ((user_pointer h, w, r), tp)
        → Step s record s {
          world = w;
          large = r;
          threads = update s.threads k tp;
          big = update s.big h (some bytes);
        }
    -- Or so many bytes that their number wraps with the header and the fences.
    allocates_wrapped :
        {s : State} (k bytes file line thread_id h : ℕ) (w : World os) (r : heap.State)
        (tp : ThreadPool)
        → 2 ^ 64 ≤ bytes + 64
        → bytes < 2 ^ 64
        → alloc os heap false s.world s.large (s.threads k) bytes file line thread_id
          ≡ ok ((user_pointer h, w, r), tp)
        → Step s record s {
          world = w;
          large = r;
          threads = update s.threads k tp;
          asked = update s.asked h (some bytes);
        }
    -- Thread `k` frees the block `h`, of whatever thread.
    releases :
        {s : State} (k h bytes : ℕ) (w : World os) (r : heap.State) (tp : ThreadPool)
        → s.asked h ≡ some bytes
        → np_free os heap false s.world s.large (s.threads k) (user_pointer h) ≡ ok ((w, r), tp)
        → Step s record s {
          world = w;
          large = r;
          threads = update s.threads k tp;
          asked = update s.asked h none;
        }
    releases_large :
        {s : State} (k h bytes : ℕ) (w : World os) (r : heap.State) (tp : ThreadPool)
        → s.big h ≡ some bytes
        → np_free os heap false s.world s.large (s.threads k) (user_pointer h) ≡ ok ((w, r), tp)
        → Step s record s {
          world = w;
          large = r;
          threads = update s.threads k tp;
          big = update s.big h none;
        }
    -- The program writes to bytes that it has.
    writes :
        {s : State} (h bytes : ℕ) (m : Memory)
        → (s.asked h ≡ some bytes) ⊎ (s.big h ≡ some bytes)
        → Same (user_pointer h) bytes s.world.memory m
        → Step s record s { world = with_memory s.world m }

  pub data Reach (s : State) : State → Type 0 where
    here : Reach s s
    then : {a b : State} → Reach s a → Step a b → Reach s b

  abbrev pub wraps : {a b : State} → Step a b → Bool
  wraps (allocates k bytes file line thread_id h w r tp small run) = false
  wraps (allocates_large k bytes file line thread_id h w r tp above room run) = false
  wraps (allocates_wrapped k bytes file line thread_id h w r tp above below run) = true
  wraps (releases k h bytes w r tp e run) = false
  wraps (releases_large k h bytes w r tp e run) = false
  wraps (writes h bytes m own same) = false

  -- In no call of the run does the number of bytes wrap.
  abbrev pub Fits : {a b : State} → Reach a b → Type 0
  Fits here = Unit
  Fits (then r step) = Fits r × (wraps step ≡ false)

  -- The pools of all threads are well formed, and so are the blocks of `malloc`.
  abbrev pub IsStanding : State → Type 0
  IsStanding s =
      (pools : ℕ → TlsPool) × (b : Books) × (l : Ptr → ℕ) × IsProcess os sizes table max s.world
        s.threads s.asked pools b
      × laws.Has s.large l
      × IsLarge max s.world.memory s.big l
      × (s.world.global.ptr ≡ base)
