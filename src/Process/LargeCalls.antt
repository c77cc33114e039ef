-- ===== src/Process/LargeCalls.antt =====
-- `alloc` and `np_free` of what is larger than the largest block: `malloc` and `free` do it.
use np_alloc.Prelude.{
  ℕ, ◌+◌, ◌*◌, ◌^◌, ◌<◌, ◌≡◌, ◌≢◌, ◌==◌, ◌⊎◌, refl, ap, sym, subst, ◌∙◌, true, false, Option, none,
  some, arith, leb, inl, inr, Bool-cases, ==_iff,
}
use np_alloc.Memory.{Memory, read64}
use np_alloc.LfStack.{Ptr, null, update}
use np_alloc.Mmap.{Os, ok, fault}
use np_alloc.Mmap.Chunks.{mib}
use np_alloc.TlsPsPool.{World, with_memory}
use np_alloc.TlsPsPool.Blocks.{Apart}
use np_alloc.ThreadLocalPool.{
  ThreadPool, Heap, alloc, alloc_block, np_free, free_block, stamp, user_pointer, header_size,
}
use np_alloc.ThreadLocalPool.Checks.{Fenced, stamp-Fenced, stamp_frame, dealloc-Fenced}
use np_alloc.Allocator.Layout.{Same}
use np_alloc.Process.Held.{whole_size_lem}
use np_alloc.Process.Large.{HeapLaws, IsLarge, IsLarge-Same}

module _ (os : Os) (heap : Heap) (base max : ℕ) (laws : HeapLaws heap base) (w : World os)
    (s : heap.State) (big : Ptr → Option ℕ) (l : Ptr → ℕ) (has : laws.Has s l)
    (v : IsLarge max w.memory big l) where
  pub some_large : (h n : ℕ) → big h ≡ some n → l h ≢ 0
  some_large h n e z = omega (arith, (v.held h n e).0, z)

  -- Another block does not reach into block `h`.
  pub large-Apart :
      (p q n n' : ℕ) → big p ≡ some n → big q ≡ some n' → p ≢ q → Apart p (n + 64) q (n' + 64)
  large-Apart p q n n' e f ne = omega (
    arith,
    laws.apart s l p q has (some_large p n e) (some_large q n' f) ne,
    (v.held p n e).0,
    (v.held q n' f).0,
  )

  pub large_placed :
      (h n : ℕ) → big h ≡ some n → (Apart h (n + 64) base (4096 * mib)) × (h + n + 64 < 2 ^ 64)
  large_placed h n e =
      let ne = some_large h n e in
      omega (arith, laws.outside s l h has ne, laws.low s l h has ne, (v.held h n e).0)

  -- Memory that changes neither in the blocks' headers nor in their fences.
  pub written-IsLarge :
      (h n : ℕ) (m' : Memory)
      → big h ≡ some n
      → Same (user_pointer h) n w.memory m'
      → IsLarge max m' big l
  unfolding user_pointer header_size
  written-IsLarge h n m' e same = IsLarge-Same m' v λ q k y f within. elim (Bool-cases (q == h)) [
    | inl one ↦
        let at : q ≡ h = (==_iff q h).0 one in
        let eq : n ≡ k = ground (arith, sym e ∙ ap big (sym at) ∙ f) in
        same y (omega (arith, within, at, eq))
    | inr ne ↦ same y (omega (arith, within, large-Apart q h k n f e (λ z. ground (arith, z, ne))))
  ]

  module _ (tp : ThreadPool) (same_max : tp.max_alloc_size ≡ max) where
    large_fault :
        (bytes file line thread_id : ℕ)
        → max < bytes + 64
        → bytes + 64 < 2 ^ 64
        → (heap.malloc s (bytes + 64)).0 ≡ null
        → alloc os heap false w s tp bytes file line thread_id ≡ fault
    unfolding alloc alloc_block
    large_fault bytes file line thread_id above room none_left =
        let over : leb (bytes + 64) tp.max_alloc_size ≡ false = ground (arith, above, same_max) in
        let dead : ((heap.malloc s (bytes + 64)).0 == null) ≡ true = ground (arith, none_left) in
        rw (whole_size_lem bytes room, over, dead) refl

    pub large_run :
        (bytes file line thread_id : ℕ)
        → max < bytes + 64
        → bytes + 64 < 2 ^ 64
        → (heap.malloc s (bytes + 64)).0 ≢ null
        → alloc os heap false w s tp bytes file line thread_id
          ≡ ok (
            (
              user_pointer (heap.malloc s (bytes + 64)).0,
              with_memory w
                  (stamp w.memory (heap.malloc s (bytes + 64)).0 bytes file line thread_id),
              (heap.malloc s (bytes + 64)).1,
            ),
            tp,
          )
    unfolding alloc alloc_block
    large_run bytes file line thread_id above room some_p =
        let over : leb (bytes + 64) tp.max_alloc_size ≡ false = ground (arith, above, same_max) in
        let live : ((heap.malloc s (bytes + 64)).0 == null) ≡ false = ground (arith, some_p) in
        rw (whole_size_lem bytes room, over, live) refl

    -- What a block of `malloc` is to the program.
    abbrev pub Grants : (bytes h : ℕ) → World os → heap.State → Type 0
    Grants bytes h w' s' =
        (l h ≡ 0)
        × (big h ≡ none)
        × Apart h (bytes + 64) base (4096 * mib)
        × Same h (bytes + 64) w.memory w'.memory
        × (w'.global ≡ w.global)
        × ((l' : Ptr → ℕ) × laws.Has s' l' × IsLarge max w'.memory (update big h (some bytes)) l')

    pub large_alloc :
        (bytes file line thread_id : ℕ)
        → max < bytes + 64
        → bytes + 64 < 2 ^ 64
        → ((h : ℕ) × (w' : World os) × (s' : heap.State) × (alloc os heap false w s tp bytes file
                line thread_id
              ≡ ok ((user_pointer h, w', s'), tp))
            × Grants bytes h w' s')
          ⊎ (((heap.malloc s (bytes + 64)).0 ≡ null)
              × (alloc os heap false w s tp bytes file line thread_id ≡ fault))
    large_alloc bytes file line thread_id above room =
        elim (Bool-cases ((heap.malloc s (bytes + 64)).0 == null)) [
          | inl dead ↦
              let none_left = (==_iff (heap.malloc s (bytes + 64)).0 null).0 dead in
              inr (none_left, large_fault bytes file line thread_id above room none_left)
          | inr live ↦ inl (
            p,
            with_memory w (stamp w.memory p bytes file line thread_id),
            (heap.malloc s (bytes + 64)).1,
            large_run bytes file line thread_id above room (some_p live),
            (
              (new live).0,
              not_big live,
              outside live,
              same live,
              refl,
              (
                update l p (bytes + 64),
                (new live).1,
                record {
                  unused = λ h e. elim (Bool-cases (p == h)) [
                    | inl y ↦ absurd (ground (arith, e, y))
                    | inr f ↦ rw f (v.unused h (ground (arith, e, f)))
                  ];
                  held = λ h n e. elim (Bool-cases (p == h)) [
                    | inl y ↦
                        let one : p ≡ h = (==_iff p h).0 y in
                        let eq : bytes ≡ n = ground (arith, e, y) in
                        let at : update l p (bytes + 64) h ≡ bytes + 64 = rw y refl in
                        let (header, fences) =
                          stamp-Fenced w.memory p bytes file line thread_id (high live) in
                        subst
                          (λ x.
                            (update l p (bytes + 64) h ≡ x + 64)
                            × (max < x + 64)
                            × (read64 (stamp w.memory p bytes file line thread_id) h ≡ x)
                            × Fenced (stamp w.memory p bytes file line thread_id) h x)
                          eq
                          (
                            at,
                            above,
                            subst
                                (λ x. read64 (stamp w.memory p bytes file line thread_id) x ≡ bytes)
                                one header,
                            subst (λ x. Fenced (stamp w.memory p bytes file line thread_id) x bytes)
                                one fences,
                          )
                    | inr f ↦
                        let at : update l p (bytes + 64) h ≡ l h = rw f refl in
                        let (sized, above', header, fences) =
                          (kept live).held h n (ground (arith, e, f)) in
                        (at ∙ sized, above', header, fences)
                  ];
                },
              ),
            ),
          )
        ]
      where
        p : ℕ
        p = (heap.malloc s (bytes + 64)).0

        some_p : (p == null) ≡ false → p ≢ null
        some_p live z = ground (arith, live, z)

        new :
            (p == null) ≡ false
            → (l p ≡ 0) × laws.Has (heap.malloc s (bytes + 64)).1 (update l p (bytes + 64))
        new live = laws.malloc_new s l (bytes + 64) has (omega arith) (some_p live)

        mine : (p == null) ≡ false → update l p (bytes + 64) p ≡ bytes + 64
        mine live = let y : (p == p) ≡ true = ground arith in rw y refl

        in_use : (p == null) ≡ false → update l p (bytes + 64) p ≢ 0
        in_use live z = omega (arith, mine live, z)

        high : (p == null) ≡ false → p + 64 + bytes < 2 ^ 64
        high live = omega (arith, laws.low _ _ p (new live).1 (in_use live), mine live)

        outside : (p == null) ≡ false → Apart p (bytes + 64) base (4096 * mib)
        outside live = omega (arith, laws.outside _ _ p (new live).1 (in_use live), mine live)

        same :
            (p == null) ≡ false
            → Same p (bytes + 64) w.memory (stamp w.memory p bytes file line thread_id)
        same live y out =
            stamp_frame w.memory p bytes file line thread_id y (high live) (omega (arith, out))

        not_big : (p == null) ≡ false → big p ≡ none
        not_big live = go (big p) refl
          where
            go : (x : Option ℕ) → big p ≡ x → big p ≡ none
            go none e = e
            go (some n) e = absurd (some_large p n e (new live).0)

        kept : (p == null) ≡ false → IsLarge max (stamp w.memory p bytes file line thread_id) big l
        kept live = IsLarge-Same (stamp w.memory p bytes file line thread_id) v λ h n y e within.
            let ne : (p == h) ≡ false = ground (arith, not_big live, e) in
            let old : update l p (bytes + 64) h ≡ l h = rw ne refl in
            let far =
              laws.apart _ _ p h (new live).1 (in_use live) (λ z. some_large h n e (sym old ∙ z))
                (λ z. ground (arith, z, ne)) in
            same live y (omega (arith, within, far, mine live, old, (v.held h n e).0))

    pub np_free-IsLarge :
        (h n : ℕ)
        → big h ≡ some n
        → (np_free os heap false w s tp (user_pointer h) ≡ ok ((w, heap.free s h), tp))
          × laws.Has (heap.free s h) (update l h 0)
          × IsLarge max w.memory (update big h none) (update l h 0)
    unfolding np_free free_block user_pointer header_size
    np_free-IsLarge h n e =
        let (sized, above, header, fences) = v.held h n e in
        let (outside, low) = large_placed h n e in
        let over : leb (n + 64) tp.max_alloc_size ≡ false = ground (arith, above, same_max) in
        let live : (h + 32 + 16 == null) ≡ false = ground arith in
        (
          rw live (
              dealloc-Fenced os heap false w s tp h n (omega (arith, low)) header fences
              ∙ rw (whole_size_lem n (omega (arith, low)), over) refl),
          laws.freed s l h has (some_large h n e),
          record {
            unused = λ q f. elim (Bool-cases (h == q)) [
              | inl y ↦ rw y refl
              | inr z ↦ rw z (v.unused q (ground (arith, f, z)))
            ];
            held = λ q k f. elim (Bool-cases (h == q)) [
              | inl y ↦ absurd (ground (arith, f, y))
              | inr z ↦
                  let at : update l h 0 q ≡ l q = rw z refl in
                  let (sized', above', header', fences') = v.held q k (ground (arith, f, z)) in
                  (at ∙ sized', above', header', fences')
            ];
          },
        )
