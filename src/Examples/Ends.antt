-- ===== src/Examples/Ends.antt =====
-- The ends of threads in src/np_thread.cpp and src/np_alloc.cpp, and bench/bench.cpp.
use np_alloc.Prelude.{
  ℕ, ◌+◌, ◌^◌, ◌≤◌, ◌≡◌, ◌⊎◌, refl, true, false, List, [], ◌∷◌, ◌++◌, none, some, arith, has, ◌==◌,
  inl, inr, Bool-cases,
}
use np_alloc.Memory.{read64, read}
use np_alloc.LfStack.{null}
use np_alloc.Mmap.Chunks.{mib}
use np_alloc.TlsPsPool.{TlsPool, World, create, count_free, deinit, destroy, free_chunks}
use np_alloc.Bench.{Api, main}
use np_alloc.Bench.Owned.{Ledger, main-Owns}
use np_alloc.Thread.Exit.{Tls, new_thread, thread_atexit, tls_destructor}
use np_alloc.Mmap.{ok, fault}
use np_alloc.Mmap.Chunks.{IsPool}
use np_alloc.ThreadLocalPool.{ThreadPool, Heap}
use np_alloc.ThreadLocalPool.Current.{
  Current, unset, live, dangling, delete_callback, get, deinit_all, delete_pool, allocate,
}
use np_alloc.ThreadLocalPool.Current.Life.{
  returned, without_all, delete_pool-IsPool, allocate-delete_pool,
}
use np_alloc.Examples.Pools.{first_world, small_sizes, small_pools, small_made}
use np_alloc.Examples.Chunks.{os, place, full, full-IsPool, first_chunks}

-- A thread with the only chunk that is in use.
abbrev last_world : World os
last_world = record { memory = λ x. 0; global = full 1; system = tt }

abbrev last_pool : TlsPool
last_pool = record {
  head = 2 ^ 32;
  free = 2 ^ 32 + 16;
  alloc_size = 128;
  chunk_size = mib;
  allocated = 0;
}

last_next : read64 (λ x. 0) (2 ^ 32) ≡ null
unfolding read64 read
last_next = refl

last_link : read64 (λ x. 0) (2 ^ 32 + 16) ≡ null
unfolding read64 read
last_link = refl

-- An allocator that gives new numbers.
abbrev numbers : Api
numbers = record { State = ℕ; alloc = λ s sz. (s + 1, s + 1); free = λ s p. s }

-- Any caller owns what is at most the latest number.
abbrev Given : ℕ → List ℕ → Type 0
Given s l = (p : ℕ) → has p l ≡ true → p ≤ s

numbers_ledger : Ledger numbers
numbers_ledger = record {
  Owns = Given;
  given = λ s l r sz own p h. elim (has-more l r (s + 1) p h) [
    | inl old ↦ omega (arith, own p old)
    | inr new ↦ omega (arith, new)
  ];
  taken = λ s l r p own q h. own q (has-without l r p q h);
}
  where
    has-more :
        (l r : List ℕ) (p q : ℕ) → has q (l ++ p ∷ r) ≡ true → (has q (l ++ r) ≡ true) ⊎ (q ≡ p)
    has-more [] r p q h = ground (arith, h)
    has-more (x ∷ l) r p q h = elim (Bool-cases (x == q)) [
      | inl e ↦ inl (ground (arith, e))
      | inr f ↦ elim (has-more l r p q (ground (arith, h, f))) [
        | inl old ↦ inl (ground (arith, old))
        | inr new ↦ inr new
      ]
    ]

    has-without : (l r : List ℕ) (p q : ℕ) → has q (l ++ r) ≡ true → has q (l ++ p ∷ r) ≡ true
    has-without [] r p q h = ground (arith, h)
    has-without (x ∷ l) r p q h = ground (arith, h, has-without l r p q)

main-Owns_example :
    ((main numbers (λ seed lo hi turn. lo) (λ t. 1 ∷ 0 ∷ 1 ∷ []) 5).0 ≡ 0
      × Given (main numbers (λ seed lo hi turn. lo) (λ t. 1 ∷ 0 ∷ 1 ∷ []) 5).1 (3 ∷ []))
    ⊎ ((main numbers (λ seed lo hi turn. lo) (λ t. 1 ∷ 0 ∷ 1 ∷ []) 5).0 ≡ 1
        × ((numbers.alloc 5 64).0 ≡ 0))
unfolding numbers_ledger
main-Owns_example =
    main-Owns numbers numbers_ledger (λ seed lo hi turn. lo) (λ t. 1 ∷ 0 ∷ 1 ∷ []) 5 (3 ∷ [])
      (λ p h. ground (arith, h))

-- That thread, with one size of blocks.
abbrev last_pools : ThreadPool
last_pools = record { tls_pool = last_pool ∷ []; mapping_pool = λ n. none; max_alloc_size = 0 }

abbrev last_thread : Current
last_thread = record { s_pool = live last_pools; tls = new_thread true }

abbrev no_heap : Heap
no_heap = record { State = Unit {0}; malloc = λ s size. (0, s); free = λ s p. s }

delete_pool-IsPool_example :
    (w' : World os) × (delete_pool os no_heap false 4096 [] 1 true last_world last_thread
      ≡ some (w', record last_thread { s_pool = dangling }))
    × IsPool w'.memory w'.global 1
        (returned ((2 ^ 32 ∷ []) ∷ []) [])
        (without_all (first_chunks 1) ((2 ^ 32 ∷ []) ∷ []))
delete_pool-IsPool_example =
    delete_pool-IsPool os no_heap 4096 [] 1 last_world last_thread last_pools ((2 ^ 32 ∷ []) ∷ [])
      (((2 ^ 32 + 16) ∷ []) ∷ []) 1 [] (first_chunks 1) refl (full-IsPool 1 (omega arith))
      ((refl, (λ e. omega (arith, e)), refl, last_next), omega arith, (λ c h. refl), tt)
      (
        (refl, (λ e. omega (arith, e)), refl, last_link),
        omega arith,
        (λ q c h own. inr (ground (arith, h, own))),
        tt,
      )
      (λ c h. ground (arith, h))

-- A thread that has registered callback 5, and then makes its pool.
abbrev queued : Tls
queued = thread_atexit (new_thread false) (some 5)

abbrev late_thread : Current
late_thread = record {
  s_pool = live small_pools;
  tls = thread_atexit queued (some delete_callback);
}

late_first : get false 4096 small_sizes (place mib) unset queued ≡ ok late_thread
unfolding get
late_first = rw small_made refl

late_deleted :
    delete_pool os no_heap false 4096 small_sizes 1 true first_world late_thread
    ≡ some (first_world, record late_thread { s_pool = dangling })
unfolding delete_pool deinit_all destroy deinit count_free free_chunks create
late_deleted = refl

allocate-delete_pool_example :
    (tls_destructor (λ f. []) 2 late_thread.tls ≡ some (delete_callback ∷ 5 ∷ []))
    × ((s : Unit {0}) (bytes file line thread_id : ℕ)
        → allocate os no_heap false 4096 small_sizes first_world s
            (record late_thread { s_pool = dangling })
            bytes
            file
            line
            thread_id
          ≡ fault)
allocate-delete_pool_example =
    allocate-delete_pool os no_heap 4096 small_sizes (λ f. []) false 5 1 (place mib) first_world
      first_world late_thread (record late_thread { s_pool = dangling }) (λ f. refl) late_first
      late_deleted
