-- ===== src/Examples/Threads.antt =====
-- Threads of src/np_alloc.cpp over the operating system of the tests and a heap that hands out the
-- addresses below 4 GB in turn.
use np_alloc.Prelude.{
  ℕ, ◌+◌, ◌*◌, ◌^◌, ◌≤◌, ◌<◌, ◌≡◌, ◌≢◌, ◌==◌, ◌⊎◌, refl, subst, ◌∙◌, false, none, some, arith, leb,
  inl, inr, if◌then◌else◌, Bool-cases, ==_iff, ℕ_discrete,
}
use np_alloc.LfStack.{Ptr, null, update}
use np_alloc.Mmap.{ok, aborted, fault, virtual_alloc}
use np_alloc.Mmap.Chunks.{mib}
use np_alloc.TlsPsPool.{World, with_memory}
use np_alloc.TlsPsPool.Blocks.{Apart}
use np_alloc.ThreadLocalPool.{
  init, Heap, ThreadPool, alloc, np_free, stamp, user_pointer, header_size,
}
use np_alloc.ThreadLocalPool.Sizes.{sizes}
use np_alloc.Allocator.Supply.{Commits}
use np_alloc.Process.Large.{HeapLaws}
use np_alloc.Process.LargeCalls.{large_run}
use np_alloc.Process.Runs.{State, Reach, Fits, here, then, allocates, allocates_large}
use np_alloc.Process.Start.{start, init-sizes}
use np_alloc.Process.Fresh.{Owns, IsFresh}
use np_alloc.Process.Safety.{np_alloc-IsFresh, np_free-any, np_alloc-keeps}
use np_alloc.Process.Persist.{Spares}
use np_alloc.Examples.Chunks.{os, place}

abbrev base : ℕ
base = 2 ^ 32

abbrev heap : Heap
heap = record {
  State = ℕ;
  malloc = λ s n. if leb (s + n) base then (s, s + n) else (0, s);
  free = λ s p. s;
}

-- Below the next address.
record Blocks (s : ℕ) (l : Ptr → ℕ) : Type 0 where
  some_left : 0 < s
  end : s ≤ base
  inside : (p : Ptr) → l p ≢ 0 → p + l p ≤ s
  apart : (p q : Ptr) → l p ≢ 0 → l q ≢ 0 → p ≢ q → Apart p (l p) q (l q)

-- One block more, or one less, where the others are what they were.
changed :
    (s : ℕ) (l : Ptr → ℕ) (p n s' : ℕ)
    → Blocks s l
    → s ≤ s'
    → s' ≤ base
    → (n ≢ 0 → (p ≡ s) × (s + n ≤ s'))
    → Blocks s' (update l p n)
changed s l p n s' v le high new = record {
  some_left = omega (arith, v.some_left, le);
  end = high;
  inside = λ q h. elim (Bool-cases (p == q)) [
    | inl y ↦
        let one : p ≡ q = (==_iff p q).0 y in
        let at : update l p n q ≡ n = rw y refl in omega (arith, at, one, new (λ z. h (at ∙ z)))
    | inr f ↦
        let at : update l p n q ≡ l q = rw f refl in
        omega (arith, at, v.inside q (λ z. h (at ∙ z)), le)
  ];
  apart = λ q r h h' ne. elim (Bool-cases (p == q)) [
    | inl y ↦
        let one : p ≡ q = (==_iff p q).0 y in
        let other : (p == r) ≡ false = ground (arith, ne, one) in
        let at : update l p n q ≡ n = rw y refl in
        let at' : update l p n r ≡ l r = rw other refl in
        omega (arith, at, at', one, new (λ z. h (at ∙ z)), v.inside r (λ z. h' (at' ∙ z)))
    | inr f ↦
        let at : update l p n q ≡ l q = rw f refl in
        elim (Bool-cases (p == r)) [
          | inl y ↦
              let one : p ≡ r = (==_iff p r).0 y in
              let at' : update l p n r ≡ n = rw y refl in
              omega (arith, at, at', one, new (λ z. h' (at' ∙ z)), v.inside q (λ z. h (at ∙ z)))
          | inr g ↦
              let at' : update l p n r ≡ l r = rw g refl in
              omega (arith, at, at', v.apart q r (λ z. h (at ∙ z)) (λ z. h' (at' ∙ z)) ne)
        ]
  ];
}

laws : HeapLaws heap base
laws = record {
  Has = Blocks;
  malloc_null = λ s l n v e. elim (Bool-cases (leb (s + n) base)) [
    | inl y ↦
        let at : heap.malloc s n ≡ (s, s + n) = rw y refl in
        absurd (omega (arith, v.some_left, subst (λ r. r.0 ≡ null) at e))
    | inr f ↦ rw f v
  ];
  malloc_new = λ s l n v pos ne. elim (Bool-cases (leb (s + n) base)) [
    | inl y ↦ rw y (
      out s l v,
      changed s l s n (s + n) v (omega arith) (ground (arith, y)) (λ h. (refl, omega arith)),
    )
    | inr f ↦ absurd (ne (rw f refl))
  ];
  freed = λ s l p v h. changed s l p 0 s v (omega arith) v.end (λ z. absurd (z refl));
  apart = λ s l p q v. v.apart p q;
  outside = λ s l p v h. omega (arith, v.inside p h, v.end);
  low = λ s l p v h. omega (arith, v.inside p h, v.end);
}
  where
    out : (s : ℕ) (l : Ptr → ℕ) → Blocks s l → l s ≡ 0
    out s l v = elim (ℕ_discrete (l s) 0) [
      | yes e ↦ e
      | no ne ↦ absurd (omega (arith, v.inside s ne, ne))
    ]

commits : Commits os
unfolding virtual_alloc
commits s a = (s, refl)

first-Blocks : laws.Has 4096 (λ p. 0)
unfolding laws
first-Blocks = record {
  some_left = omega arith;
  end = omega arith;
  inside = λ p h. absurd (h refl);
  apart = λ p q h h' ne. absurd (h refl);
}

-- The pools of every thread.
abbrev tp : ThreadPool
tp = (init-sizes 64 (place (4096 * mib)) (λ z. omega (arith, z))).0

tp_made : init false 64 sizes (place (4096 * mib)) ≡ ok tp
tp_made = (init-sizes 64 (place (4096 * mib)) (λ z. omega (arith, z))).1

abbrev Process : Type 0
Process = State os heap commits base laws sizes tp.mapping_pool 8256

abbrev zero_process : Process
zero_process = start os heap commits base laws tp (λ x. 0) tt 4096 4096

abbrev first_world : World os
first_world = record { memory = λ x. 0; global = place (4096 * mib); system = tt }

-- Thread 0 has 10000 bytes from `malloc`, at 4096.
abbrev one_process : Process
one_process = record {
  world = with_memory first_world (stamp (λ x. 0) 4096 10000 0 0 0);
  large = 14160;
  threads = update (λ k. tp) 0 tp;
  asked = λ p. none;
  big = update (λ p. none) 4096 (some 10000);
}

one_run :
    alloc os heap false first_world 4096 tp 10000 0 0 0
    ≡ ok ((user_pointer 4096, with_memory first_world (stamp (λ x. 0) 4096 10000 0 0 0), 14160), tp)
one_run =
    large_run os heap base 8256 laws first_world 4096 (λ p. none) (λ p. 0) first-Blocks
      (record { unused = λ h e. refl; held = λ h n e. cc }) tp
      (init-sizes 64 (place (4096 * mib)) (λ z. omega (arith, z))).3 10000 0 0 0 (omega arith)
      (omega arith) (λ z. omega (arith, z))

one_reached : Reach os heap commits base laws sizes tp.mapping_pool 8256 zero_process one_process
unfolding start
one_reached = (then) here (
    allocates_large 0 10000 0 0 0 4096 (with_memory first_world (stamp (λ x. 0) 4096 10000 0 0 0))
      14160 tp (omega arith) (omega arith) one_run)

one_fits : Fits os heap commits base laws sizes tp.mapping_pool 8256 one_reached
unfolding one_reached
one_fits = (tt, refl)

-- Thread 1 asks for 100 bytes.
abbrev AllocOutcome : Type 0
AllocOutcome =
    ((h : ℕ) × (w : World os) × (r : ℕ) × (tp' : ThreadPool) × (alloc os heap false
          one_process.world 14160 (one_process.threads 1) 100 0 0 1
        ≡ ok ((user_pointer h, w, r), tp'))
      × IsFresh one_process h 100 w.memory)
    ⊎ ((100 ≤ 8192)
        × (one_process.world.global.head ≡ one_process.world.global.ptr + 4096 * mib)
        × (one_process.world.global.free_head.ptr ≡ null)
        × (alloc os heap false one_process.world 14160 (one_process.threads 1) 100 0 0 1 ≡ aborted))
    ⊎ ((8192 < 100)
        × ((heap.malloc 14160 164).0 ≡ null)
        × (alloc os heap false one_process.world 14160 (one_process.threads 1) 100 0 0 1 ≡ fault))

np_alloc-IsFresh_example : AllocOutcome
np_alloc-IsFresh_example =
    np_alloc-IsFresh os heap commits base laws (λ x. 0) tt 4096 4096 64 tp first-Blocks
      (omega arith) (omega arith) (λ z. omega (arith, z)) tp_made one_process one_reached one_fits 1
      100 0 0 1 (omega arith)

asked_again : AllocOutcome
asked_again =
    np_alloc-IsFresh os heap commits base laws (λ x. 0) tt 4096 4096 64 tp first-Blocks
      (omega arith) (omega arith) (λ z. omega (arith, z)) tp_made one_process one_reached one_fits 1
      100 0 0 1 (omega arith)

-- Thread 1 frees what thread 0 has.
np_free-any_example :
    (w : World os) × (r : ℕ) × (tp' : ThreadPool) × (np_free os heap false one_process.world 14160
        (one_process.threads 1)
        (user_pointer 4096)
      ≡ ok ((w, r), tp'))
    × ((q n y : ℕ)
        → Owns one_process q n
        → q ≢ 4096
        → user_pointer q ≤ y
        → y < user_pointer q + n
        → w.memory y ≡ one_process.world.memory y)
np_free-any_example =
    np_free-any os heap commits base laws (λ x. 0) tt 4096 4096 64 tp first-Blocks (omega arith)
      (omega arith) (λ z. omega (arith, z)) tp_made one_process one_reached one_fits 1 4096 10000
      (inr refl)

-- Thread 1 has got its 100 bytes.
two_process :
    (h : ℕ) × (s : Process) × (r : Reach os heap commits base laws sizes tp.mapping_pool 8256
      zero_process s)
    × Fits os heap commits base laws sizes tp.mapping_pool 8256 r
    × Owns s 4096 10000
    × Owns s h 100
    × (4096 ≢ h)
    × ((r' : Reach os heap commits base laws sizes tp.mapping_pool 8256 one_process s) × Fits os
          heap commits base laws sizes tp.mapping_pool 8256 r'
        × Spares os heap commits base laws tp.mapping_pool 4096 r')
unfolding start user_pointer header_size
two_process = elim asked_again [
  | inl (h, w, r, tp', run, fresh) ↦
      let ne : 4096 ≢ h = λ z. omega (arith, (fresh 4096 10000 (inr refl)).0, z) in
      (
        h,
        record {
          world = w;
          large = r;
          threads = update one_process.threads 1 tp';
          asked = update (λ p. none) h (some 100);
          big = update (λ p. none) 4096 (some 10000);
        },
        (then) one_reached (allocates 1 100 0 0 1 h w r tp' (omega arith) run),
        (one_fits, refl),
        inr refl,
        inl (ground arith),
        ne,
        ((then) here (allocates 1 100 0 0 1 h w r tp' (omega arith) run), (tt, refl), (tt, refl)),
      )
  | inr (inl (small, top, none_waits, run)) ↦ absurd (omega (arith, top))
  | inr (inr (large, none_left, run)) ↦ absurd (omega (arith, large))
]

np_alloc-keeps_example :
    Owns two_process.1 4096 10000
    × ((y : ℕ)
        → user_pointer 4096 ≤ y
        → y < user_pointer 4096 + 10000
        → two_process.1.world.memory y ≡ one_process.world.memory y)
np_alloc-keeps_example =
    np_alloc-keeps os heap commits base laws (λ x. 0) tt 4096 4096 64 tp first-Blocks (omega arith)
      (omega arith) (λ z. omega (arith, z)) tp_made one_process one_reached one_fits two_process.1
      two_process.7.0 4096 10000 two_process.7.1 two_process.7.2 (inr refl)
