-- ===== src/Process/Safety.antt =====
-- What the program gets from `np_alloc`, whatever its threads have done before.
use np_alloc.Prelude.{ℕ, ◌+◌, ◌*◌, ◌^◌, ◌≤◌, ◌<◌, ◌≡◌, ◌≢◌, ◌⊎◌, false}
use np_alloc.Memory.{Memory}
use np_alloc.LfStack.{null}
use np_alloc.Mmap.{Os, ok, aborted, fault, create}
use np_alloc.Mmap.Chunks.{mib}
use np_alloc.Mmap.Reserve.{reserved}
use np_alloc.TlsPsPool.{World}
use np_alloc.ThreadLocalPool.{ThreadPool, Heap, init, alloc, np_free, user_pointer}
use np_alloc.ThreadLocalPool.Sizes.{sizes}
use np_alloc.Allocator.Supply.{Commits}
use np_alloc.Process.Large.{HeapLaws}
use np_alloc.Process.Runs.{State, Reach, Fits, IsStanding}
use np_alloc.Process.Steps.{reach-IsStanding}
use np_alloc.Process.Start.{start, start-IsStanding}
use np_alloc.Process.Persist.{Spares, reach-Keeps}
use np_alloc.Process.Fresh.{Owns, IsFresh, alloc-IsFresh, free-Owns}

module _ (os : Os) (heap : Heap) (commits : Commits os) (v : ℕ) (laws : HeapLaws heap v)
    (m : Memory) (s₀ : os.State) (h₀ : heap.State) (page_size mapping : ℕ) (tp : ThreadPool)
    (clean : laws.Has h₀ (λ p. 0)) (pos : 0 < v) (room : v + 4097 * mib < 2 ^ 63)
    (there : mapping ≢ 0)
    (made : init false mapping sizes (reserved (create page_size) v (4096 * mib)) ≡ ok tp)
    (s : State os heap commits v laws sizes tp.mapping_pool 8256)
    (r : Reach os heap commits v laws sizes tp.mapping_pool 8256
      (start os heap commits v laws tp m s₀ h₀ page_size)
      s)
    (fits : Fits os heap commits v laws sizes tp.mapping_pool 8256 r) where
  standing : IsStanding os heap commits v laws sizes tp.mapping_pool 8256 s
  standing = reach-IsStanding os heap commits v laws sizes tp.mapping_pool 8256 _ s r fits (
      start-IsStanding os heap commits v laws tp m s₀ h₀ page_size mapping clean pos room there
        made)

  -- After any run of the threads as in np_alloc-Apart, `np_alloc` of any thread, for fewer than
  -- 2 ^ 64 - 64 bytes, returns bytes that overlap none
  -- that the program has, and leaves those as they are; or a block of a pool is asked for, all
  -- 4096 chunks have been made, none waits in the global pool, and an assertion fails; or a
  -- larger one is, and `malloc` returns null.
  pub np_alloc-IsFresh :
      (k bytes file line thread_id : ℕ)
      → bytes + 64 < 2 ^ 64
      → ((h : ℕ) × (w : World os) × (r' : heap.State) × (tp' : ThreadPool) × (alloc os heap false
              s.world s.large
              (s.threads k)
              bytes
              file
              line
              thread_id
            ≡ ok ((user_pointer h, w, r'), tp'))
          × IsFresh s h bytes w.memory)
        ⊎ ((bytes ≤ 8192)
            × (s.world.global.head ≡ s.world.global.ptr + 4096 * mib)
            × (s.world.global.free_head.ptr ≡ null)
            × (alloc os heap false s.world s.large (s.threads k) bytes file line thread_id
                ≡ aborted))
        ⊎ ((8192 < bytes)
            × ((heap.malloc s.large (bytes + 64)).0 ≡ null)
            × (alloc os heap false s.world s.large (s.threads k) bytes file line thread_id ≡ fault))
  np_alloc-IsFresh k bytes file line thread_id below =
      alloc-IsFresh os heap commits v laws tp.mapping_pool s standing k bytes file line thread_id
        below

  -- After any run of the threads as in np_alloc-Apart, `np_free` by any thread of what the
  -- program has, from whatever thread, returns, and leaves the other bytes that the program has
  -- as they are.
  pub np_free-any :
      (k h bytes : ℕ)
      → Owns s h bytes
      → (w : World os) × (r' : heap.State) × (tp' : ThreadPool) × (np_free os heap false s.world
            s.large
            (s.threads k)
            (user_pointer h)
          ≡ ok ((w, r'), tp'))
        × ((q n y : ℕ)
            → Owns s q n
            → q ≢ h
            → user_pointer q ≤ y
            → y < user_pointer q + n
            → w.memory y ≡ s.world.memory y)
  np_free-any k h bytes own =
      free-Owns os heap commits v laws tp.mapping_pool s standing k h bytes own

  -- What the program has written stays: after any run of the threads as in np_alloc-Apart, and
  -- over any further run of such steps, again without a number of bytes that wraps, in which the
  -- program neither frees a block that it has nor writes to that block's bytes, it still has the
  -- block, and every byte of it is what it was.
  pub np_alloc-keeps :
      (s' : State os heap commits v laws sizes tp.mapping_pool 8256)
      (r' : Reach os heap commits v laws sizes tp.mapping_pool 8256 s s') (p n : ℕ)
      → Fits os heap commits v laws sizes tp.mapping_pool 8256 r'
      → Spares os heap commits v laws tp.mapping_pool p r'
      → Owns s p n
      → Owns s' p n
        × ((y : ℕ)
            → user_pointer p ≤ y
            → y < user_pointer p + n
            → s'.world.memory y ≡ s.world.memory y)
  np_alloc-keeps s' r' p n fits' spares own =
      reach-Keeps os heap commits v laws tp.mapping_pool s s' r' p n standing fits' spares own
