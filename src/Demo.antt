-- ===== src/Demo.antt =====
-- src/main.cpp: a hundred threads that each register a callback, and one block of `np_alloc`.
use np_alloc.Prelude.{
  ℕ, ◌+◌, ◌^◌, ◌<◌, ◌≡◌, ◌≢◌, ◌==◌, ltb, leb, refl, ap, Bool, true, false, ◌&&◌, List, [], ◌++◌,
  ◌∙◌, Option, none, some, Text, codes, Show, if◌then◌else◌, arith,
}
use np_alloc.Memory.{Memory}
use np_alloc.LfStack.{null}
use np_alloc.Mmap.{Os, Result, ok, ◌>>=◌}
use np_alloc.TlsPsPool.{World, with_memory}
use np_alloc.Thread.Exit.{Tls, thread_atexit, thread_test_atexit, deleted_count}
use np_alloc.ThreadLocalPool.{
  ThreadPool, Heap, alloc_block, free_block, alloc, dealloc, stamp, user_pointer, whole_size,
  header_size,
}
use np_alloc.ThreadLocalPool.Checks.{dealloc-stamp}
use np_alloc.ThreadLocalPool.Current.{Current, live, allocate, release, get, with_current}

-- What the main thread's callback 1 prints.
abbrev pub deleted_line : Text
deleted_line = codes "internal::t_delete called.\n"

-- `test_c`; `Double` is C++'s type of that name.
pub record TestC (Double : Type 0) : Type 0 where
  pub s1 : Text
  pub s2 : ℕ
  pub s3 : Double

abbrev pub test_object : {Double : Type 0} → (pi : Double) → TestC Double
test_object d = record { s1 = codes "a"; s2 = 100; s3 = d }

unfoldable pub memset : Memory → (p value n : ℕ) → Memory
memset m p value n x = if leb p x && ltb x (p + n) then value else m x

-- What `_test` prints, and the main thread's callbacks. The objects themselves come from `malloc`.
unfoldable pub test_threads :
    (show : Show) (adds : ℕ → List (Option ℕ)) → (key_made : Bool) → Tls → Option (Text × Tls)
test_threads show adds key_made main = elim (deleted_count adds 100 key_made) [
  | none ↦ none
  | some count ↦ elim (thread_test_atexit adds true) [
    | none ↦ none
    | some passed ↦ some (
      codes "deleted_count["
          ++ show false 0 count
          ++ codes "]\n"
          ++ (if passed then [] else codes "thread_test_atexit() - test failed.\n"),
      thread_atexit main (some 1),
    )
  ]
]

module _ (os : Os) (heap : Heap) (ndebug : Bool) (mapping : ℕ) (sizes : List ℕ) where
  -- The end of `_test`: 50 bytes, filled with 0x33, and freed.
  unfoldable pub test_block :
      (file thread_id : ℕ)
      → World os
      → heap.State
      → Current
      → Result ((World os × heap.State) × Current)
  test_block file thread_id w s c = do
    ((p, w', s'), c') ← allocate os heap ndebug mapping sizes w s c 50 file 73 thread_id
    release os heap ndebug mapping sizes (with_memory w' (memset w'.memory p 0x33 50)) s' c' p

  allocate_live :
      (w w' : World os) (s s' : heap.State) (c c₁ : Current) (pool pool' : ThreadPool)
      → (h bytes file line thread_id : ℕ) → get ndebug mapping sizes w.global c.s_pool c.tls ≡ ok c₁
      → c₁.s_pool ≡ live pool
      → alloc_block os heap ndebug w s pool (whole_size bytes) ≡ ok ((h, w', s'), pool')
      → h ≢ null
      → allocate os heap ndebug mapping sizes w s c bytes file line thread_id
        ≡ ok (
          (user_pointer h, with_memory w' (stamp w'.memory h bytes file line thread_id), s'),
          record c₁ { s_pool = live pool' },
        )
  unfolding allocate with_current alloc
  allocate_live w w' s s' c c₁ pool pool' h bytes file line thread_id first is_live got ne =
      let block : (h == null) ≡ false = ground (arith, ne) in rw (first, is_live, got, block) refl

  release_live :
      (w : World os) (s : heap.State) (c : Current) (pool : ThreadPool) (p : ℕ)
      → c.s_pool ≡ live pool
      → p ≢ null
      → release os heap ndebug mapping sizes w s c p ≡ (do
        (r, pool') ← dealloc os heap ndebug w s pool p
        ok (r, record c { s_pool = live pool' }))
  unfolding release with_current get
  release_live w s c pool p is_live ne =
      let some_p : (p == null) ≡ false = ground (arith, ne) in rw (is_live, some_p) refl

  -- In a thread's first allocation or a later one: where `get` gives the thread's pool, made now or
  -- before, and this pool a block that is not null and does not reach the end of the address space,
  -- the fill stays within the fences: `np_free` passes its assertions and hands back the same block,
  -- with the size for which it was taken.
  pub test_block_lem :
      (file thread_id : ℕ) (w w' : World os) (s s' : heap.State) (c c₁ : Current)
      (pool pool' : ThreadPool) (h : ℕ)
      → get ndebug mapping sizes w.global c.s_pool c.tls ≡ ok c₁
      → c₁.s_pool ≡ live pool
      → alloc_block os heap ndebug w s pool (whole_size 50) ≡ ok ((h, w', s'), pool')
      → h ≢ null
      → h + 64 + 50 < 2 ^ 64
      → test_block file thread_id w s c ≡ (do
        (r, pool'') ←
            free_block os heap ndebug
              (with_memory w'
                (memset (stamp w'.memory h 50 file 73 thread_id) (user_pointer h) 0x33 50))
              s'
              pool'
              h
              (whole_size 50)
        ok (r, record c₁ { s_pool = live pool'' }))
  unfolding test_block memset user_pointer header_size
  test_block_lem file thread_id w w' s s' c c₁ pool pool' h first is_live got ne room =
      let filled =
        with_memory w' (memset (stamp w'.memory h 50 file 73 thread_id) (user_pointer h) 0x33 50) in
      rw (allocate_live w w' s s' c c₁ pool pool' h 50 file 73 thread_id first is_live got ne) (
        release_live filled s' (record c₁ { s_pool = live pool' }) pool' (user_pointer h) refl
          (λ z. absurd (omega (arith, z)))
        ∙ ap (λ r. r >>= λ (r, pool''). ok (r, record c₁ { s_pool = live pool'' }))
            (dealloc-stamp os heap ndebug filled s' pool' w'.memory h 50 file 73 thread_id room
              (λ y within. ground arith)))

-- `main`, after `_test`: the exit code.
abbrev pub main_result : ℕ
main_result = 0
