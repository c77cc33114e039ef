-- ===== src/Process/Calls.antt =====
-- `alloc` and `np_free` of one thread's pools among those of all threads.
use np_alloc.Prelude.{
  ℕ, ◌+◌, ◌*◌, ◌≤◌, ◌≡◌, ◌≢◌, ◌==◌, ◌⊎◌, refl, ap, ◌∙◌, true, false, List, [], Option, none, some,
  length, set, arith, get_elem?, leb, if◌then◌else◌, inl, inr,
}
use np_alloc.LfStack.{Ptr, null, update}
use np_alloc.Mmap.{Os, Result, ok, aborted, fault, ◌>>=◌}
use np_alloc.Mmap.Chunks.{mib}
use np_alloc.Allocator.Layout.{Outside}
use np_alloc.TlsPsPool.{TlsPool, World, with_memory}
use np_alloc.TlsPsPool as TlsPsPool
use np_alloc.TlsPsPool.Serve.{ne_null}
use np_alloc.ThreadLocalPool.{
  ThreadPool, Heap, alloc, alloc_block, with_pool, stamp, whole_size, user_pointer,
}
use np_alloc.Allocator.{Books}
use np_alloc.Allocator.Supply.{Commits}
use np_alloc.Allocator.Calls.{alloc-Serves}
use np_alloc.Process.{number, IsProcess}
use np_alloc.Process.Held.{whole_size_lem}
use np_alloc.Process.Allocate.{KeepsAsked, unused_asked, placed, stamped-Outside, stamped-IsProcess}

module _ (os : Os) (heap : Heap) (commits : Commits os) (sizes : List ℕ) (table : ℕ → Option ℕ)
    (max : ℕ) (w : World os) (s : heap.State) (threads : ℕ → ThreadPool)
    (asked : Ptr → Option ℕ) where
  abbrev pub Stands : World os → (ℕ → ThreadPool) → (Ptr → Option ℕ) → Type 0
  Stands w threads asked =
      (pools : ℕ → TlsPool) × (b : Books) × IsProcess os sizes table max w threads asked pools b

  -- The new block at `h`, and all threads after the call.
  abbrev pub Allocates : (k bytes h : ℕ) → World os → ThreadPool → Type 0
  Allocates k bytes h w' tp =
      (asked h ≡ none)
      × (h ≢ null)
      × Stands w' (update threads k tp) (update asked h (some bytes))
      × KeepsAsked asked w.memory w'.memory
      × (w'.global.ptr ≡ w.global.ptr)
      × Outside w.global.ptr w.memory w'.memory
      × (w.global.ptr ≤ h)
      × (h + 64 + bytes ≤ w.global.ptr + 4096 * mib)

  -- A call through the table.
  pub with_pool_at :
      {A : Type 0} (tp : ThreadPool) (a i : ℕ) (t : TlsPool) (f : TlsPool → Result (A × TlsPool))
      → tp.mapping_pool a ≡ some i
      → get_elem? tp.tls_pool i ≡ some t
      → with_pool os heap false tp a f
        ≡ (f t >>= λ (x, t'). ok (x, record tp { tls_pool = set tp.tls_pool i t' }))
  unfolding with_pool
  with_pool_at tp a i t f tab elem = rw (with_pool, tab, elem) refl

  -- `alloc` through pool `i` of the thread, which gives `r`.
  alloc_at :
      (tp : ThreadPool) (bytes file line thread_id i : ℕ) (t : TlsPool)
      (r : Result (Ptr × World os × TlsPool))
      → whole_size bytes ≡ bytes + 64
      → leb (bytes + 64) tp.max_alloc_size ≡ true
      → tp.mapping_pool (bytes + 64) ≡ some i
      → get_elem? tp.tls_pool i ≡ some t
      → TlsPsPool.alloc os false w t ≡ r
      → alloc os heap false w s tp bytes file line thread_id ≡ (
          r >>= λ (p, w', t').
          if p == null
          then fault
          else ok (
            (user_pointer p, with_memory w' (stamp w'.memory p bytes file line thread_id), s),
            record tp { tls_pool = set tp.tls_pool i t' },
          ))
  unfolding alloc alloc_block
  alloc_at tp bytes file line thread_id i t (ok (p, w', t')) whole pooled tab elem run =
      rw (whole, pooled, with_pool_at tp (bytes + 64) i t _ tab elem, run) refl
  alloc_at tp bytes file line thread_id i t aborted whole pooled tab elem run =
      rw (whole, pooled, with_pool_at tp (bytes + 64) i t _ tab elem, run) refl
  alloc_at tp bytes file line thread_id i t fault whole pooled tab elem run =
      rw (whole, pooled, with_pool_at tp (bytes + 64) i t _ tab elem, run) refl

  module _ (pools : ℕ → TlsPool) (b : Books)
      (v : IsProcess os sizes table max w threads asked pools b) where
    pub alloc-Stands :
        (k bytes file line thread_id : ℕ)
        → bytes + 64 ≤ max
        → ((h : ℕ) × (w' : World os) × (tp : ThreadPool) × (alloc os heap false w s
                (threads k)
                bytes
                file
                line
                thread_id
              ≡ ok ((user_pointer h, w', s), tp))
            × Allocates k bytes h w' tp)
          ⊎ ((b.made ≡ 4096)
              × (b.waiting ≡ [])
              × (alloc os heap false w s (threads k) bytes file line thread_id ≡ aborted))
    alloc-Stands k bytes file line thread_id small =
        let whole = whole_size_lem bytes (omega (arith, small, v.tabled.small)) in
        let (i, size, tab, at, fits) = v.tabled.fits (bytes + 64) (omega arith) small in
        let th = v.thread k in
        let same_table : (threads k).mapping_pool (bytes + 64) ≡ some i =
          ap (λ f. f (bytes + 64)) th.same_table ∙ tab in
        let pooled : leb (bytes + 64) (threads k).max_alloc_size ≡ true =
          ground (arith, small, th.same_max) in
        let through = λ (r : Result (Ptr × World os × TlsPool)).
          alloc_at (threads k) bytes file line thread_id i (pools (number (length sizes) k i)) r
            whole pooled same_table (th.pool i size at).0 in
        elim (alloc-Serves os commits w pools b v.stands (number (length sizes) k i)) [
          | inr (full, empty, starved, run) ↦ inr (full, empty, through aborted run)
          | inl ((p, w', t'), run, serves) ↦
              let (v', keeps) =
                stamped-IsProcess os sizes table max w threads asked pools b v k bytes file line
                  thread_id small i size tab at fits p w' t' serves in
              let outside =
                stamped-Outside os sizes table max w threads asked pools b v k bytes file line
                  thread_id small i size tab at fits p w' t' serves in
              let inside =
                placed os sizes table max w threads asked pools b v k bytes file line thread_id
                  small i size tab at fits p w' t' serves in
              inl (
                p,
                with_memory w' (stamp w'.memory p bytes file line thread_id),
                record (threads k) { tls_pool = set (threads k).tls_pool i t' },
                through (ok (p, w', t')) run ∙ rw (ne_null p serves.2) refl,
                (
                  unused_asked os sizes table max w threads asked pools b v p serves.1,
                  serves.2,
                  (_, _, v'),
                  keeps,
                  serves.5,
                  outside,
                  inside.0,
                  inside.1,
                ),
              )
        ]
