-- ===== src/Process/Release.antt =====
-- `np_free` of one thread's pools among those of all threads, of a block that any thread has
-- allocated.
use np_alloc.Prelude.{
  ℕ, ◌+◌, ◌^◌, ◌<◌, ◌≡◌, ◌==◌, refl, ap, sym, ◌∙◌, true, false, List, Option, none, some, length,
  set, arith, get_elem?, leb, inl, inr, Bool-cases,
}
use np_alloc.LfStack.{Ptr, null, update}
use np_alloc.Mmap.{Os, ok}
use np_alloc.Allocator.Layout.{Outside}
use np_alloc.TlsPsPool.{TlsPool, World, with_memory}
use np_alloc.TlsPsPool as TlsPsPool
use np_alloc.ThreadLocalPool.{
  ThreadPool, Heap, dealloc, np_free, free_block, whole_size, user_pointer, header_size,
}
use np_alloc.ThreadLocalPool.Checks.{dealloc-Fenced}
use np_alloc.Allocator.{Books, IsAllocator}
use np_alloc.Allocator.Supply.{Commits}
use np_alloc.Allocator.Moves.{KeepsLive}
use np_alloc.Allocator.Calls.{dealloc-IsAllocator}
use np_alloc.Process.{number, IsProcess}
use np_alloc.Process.Table.{update-IsThread}
use np_alloc.Process.Held.{IsHeld-whole, live_low, whole_size_lem}
use np_alloc.Process.Allocate.{KeepsAsked, asked_live}
use np_alloc.Process.Calls.{Stands, with_pool_at}

other_live :
    (live live' : Ptr → ℕ) (h q : Ptr)
    → live' ≡ update live h 0
    → (h == q) ≡ false
    → live' q ≡ live q
other_live live live' h q e ne = ap (λ l. l q) e ∙ rw ne refl

module _ (os : Os) (heap : Heap) (commits : Commits os) (sizes : List ℕ) (table : ℕ → Option ℕ)
    (max : ℕ) (w : World os) (s : heap.State) (threads : ℕ → ThreadPool)
    (asked : Ptr → Option ℕ) where
  -- `np_free` through pool `i` of the thread.
  free_at :
      (tp : ThreadPool) (h bytes i : ℕ) (t t' : TlsPool) (w' : World os)
      → dealloc os heap false w s tp (user_pointer h)
        ≡ free_block os heap false w s tp h (whole_size bytes)
      → whole_size bytes ≡ bytes + 64
      → leb (bytes + 64) tp.max_alloc_size ≡ true
      → tp.mapping_pool (bytes + 64) ≡ some i
      → get_elem? tp.tls_pool i ≡ some t
      → TlsPsPool.dealloc os false w t h ≡ ok (w', t')
      → np_free os heap false w s tp (user_pointer h)
        ≡ ok ((w', s), record tp { tls_pool = set tp.tls_pool i t' })
  unfolding np_free free_block user_pointer header_size
  free_at tp h bytes i t t' w' checked whole pooled tab elem run =
      let live : (h + 32 + 16 == null) ≡ false = ground arith in
      rw live (
        checked
        ∙ rw
            (
              whole,
              pooled,
              with_pool_at os heap commits sizes table max w s threads asked tp (bytes + 64) i t _
                  tab elem,
              run,
            )
            refl)

  module _ (pools : ℕ → TlsPool) (b : Books)
      (v : IsProcess os sizes table max w threads asked pools b) where
    freed-IsProcess :
        (k h bytes i : ℕ) (t' : TlsPool) (w' : World os) (b' : Books)
        → asked h ≡ some bytes
        → get_elem? sizes i ≡ some (b.live h)
        → t'.alloc_size ≡ (pools (number (length sizes) k i)).alloc_size
        → IsAllocator w'.memory w'.global (update pools (number (length sizes) k i) t') b'
        → b'.live ≡ update b.live h 0
        → KeepsLive b' w.memory w'.memory
        → Stands os heap commits sizes table max w s threads asked w'
            (update threads k (record (threads k) { tls_pool = set (threads k).tls_pool i t' }))
            (update asked h none)
          × KeepsAsked (update asked h none) w.memory w'.memory
    freed-IsProcess k h bytes i t' w' b' e at same v' live keeps = (
      (
        update pools (number (length sizes) k i) t',
        b',
        record {
          tabled = v.tabled;
          stands = v';
          thread = update-IsThread sizes table max pools threads k i (b.live h) t' at same v.thread;
          unused = λ q e'. elim (Bool-cases (h == q)) [
            | inl y ↦ ap (λ l. l q) live ∙ rw y refl
            | inr f ↦
                let e'' : asked q ≡ none = ground (arith, e', f) in
                other_live b.live b'.live h q live f ∙ v.unused q e''
          ];
          held = λ q n e'.
              let (f, e'') = still q n e' in
              IsHeld-whole w'.memory b'.live (v.held q n e'') (other_live b.live b'.live h q live f)
                (λ y lo hi. keeps q y lo (omega (arith, hi, other_live b.live b'.live h q live f)));
        },
      ),
      λ q n y e' lo hi.
          let (f, e'') = still q n e' in
          keeps q y (omega (arith, lo))
            (omega (arith, hi, other_live b.live b'.live h q live f, (v.held q n e'').fits)),
    )
      where
        still : (q n : ℕ) → update asked h none q ≡ some n → ((h == q) ≡ false) × (asked q ≡ some n)
        still q n e' = elim (Bool-cases (h == q)) [
          | inl y ↦ absurd (ground (arith, e', y))
          | inr f ↦ (f, ground (arith, e', f))
        ]

    -- A block that the program has from `alloc`, of whatever thread, is freed by any thread: the
    -- fences are found as they should be, the call returns, all threads stay well formed with the
    -- block no longer in use, and what the program asked for at the other blocks keeps its bytes.
    pub np_free-Stands :
        (k h bytes : ℕ)
        → asked h ≡ some bytes
        → (w' : World os) × (tp : ThreadPool) × (np_free os heap false w s
              (threads k)
              (user_pointer h)
            ≡ ok ((w', s), tp))
          × Stands os heap commits sizes table max w s threads asked w'
              (update threads k tp)
              (update asked h none)
          × KeepsAsked (update asked h none) w.memory w'.memory
          × (w'.global.ptr ≡ w.global.ptr)
          × Outside w.global.ptr w.memory w'.memory
    np_free-Stands k h bytes e =
        let held = v.held h bytes e in
        let i = held.index in
        let th = v.thread k in
        let (elem, sized) = th.pool held.index (b.live h) held.sized in
        let low =
          live_low v.stands h (asked_live os sizes table max w threads asked pools b v h bytes e) in
        let room : h + 64 + bytes < 2 ^ 64 = omega (arith, low, held.fits) in
        let pooled : leb (bytes + 64) (threads k).max_alloc_size ≡ true =
          ground (arith, held.small, th.same_max) in
        let (w', t', run, same, (b', v', live, keeps), fixed, outside) =
          dealloc-IsAllocator os commits w pools b v.stands (number (length sizes) k held.index) h
            (sym sized) in
        let (stands, kept) =
          freed-IsProcess k h bytes held.index t' w' b' e held.sized same v' live keeps in
        (
          w',
          record (threads k) { tls_pool = set (threads k).tls_pool held.index t' },
          free_at (threads k) h bytes held.index (pools (number (length sizes) k held.index)) t' w'
              (dealloc-Fenced os heap false w s (threads k) h bytes room held.header held.fences)
              (whole_size_lem bytes (omega (arith, held.small, v.tabled.small))) pooled
              (ap (λ f. f (bytes + 64)) th.same_table ∙ held.mapped) elem run,
          stands,
          kept,
          fixed,
          outside,
        )
