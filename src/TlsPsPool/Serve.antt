-- ===== src/TlsPsPool/Serve.antt =====
-- `alloc` and `dealloc` of `tls_ps_pool` as a whole.
use np_alloc.Prelude.{
  ℕ, ◌+◌, ◌-◌, ◌%◌, ◌^◌, ◌≤◌, ◌≡◌, ◌≢◌, ◌==◌, inl, inr, refl, sym, subst, Bool, true, false, List,
  [], ◌∷◌, arith, leb, ◌||◌, Bool-cases,
}
use np_alloc.Memory.{Memory, read64, write64}
use np_alloc.LfStack.{Ptr, null, update}
use np_alloc.LfStack.Chain.{Chain}
use np_alloc.Mmap.{Os, ok, fault}
use np_alloc.Mmap.Chunks.{mib}
use np_alloc.GlobalPool.{GlobalPool}
use np_alloc.GlobalPool
use np_alloc.TlsPsPool.{
  TlsPool, World, with_memory, sizeof_pool, get_free_count, carve, alloc_from_global,
  alloc_from_local_pool, alloc, dealloc,
}
use np_alloc.TlsPsPool.Blocks.{IsPool}
use np_alloc.TlsPsPool.Adopt.{IsFresh, headed}
use np_alloc.TlsPsPool.Moves.{Keeps, reused, freed}
use np_alloc.TlsPsPool.Alloc.{
  Starved, Serves, carve-Serves, fresh_Serves, get_free_count-room, recount,
}

pub ne_null : (p : Ptr) → p ≢ null → p == null ≡ false
ne_null p ne = ground arith

pub cons_of_head :
    (m : Memory) (p : Ptr) (l : List Ptr)
    → p == null ≡ false
    → Chain (read64 m) p l
    → (q : Ptr) × (l' : List Ptr) × (l ≡ q ∷ l')
cons_of_head m p [] ne c = absurd (ground (arith, c))
cons_of_head m p (q ∷ l') ne c = (q, l', refl)

-- One more block in use.
abbrev pub counted : TlsPool → TlsPool
counted t = record t { allocated = (t.allocated + 1) % 2 ^ 64 }

module _ (os : Os) (ndebug : Bool) where
  -- What the global pool gives.
  abbrev pub Supplies : World os → Ptr → GlobalPool → os.State → Type 0
  Supplies w d g s = GlobalPool.alloc_chunk os ndebug w.memory w.global w.system ≡ ok (d, g, s)

  abbrev pub with_chunk : World os → TlsPool → Ptr → GlobalPool → os.State → World os
  with_chunk w t d g s = record { memory = headed w.memory d t.head; global = g; system = s }

  pub adopts :
      (w : World os) (t : TlsPool) (d : Ptr) (g : GlobalPool) (s : os.State)
      → GlobalPool.get_chunk_size w.global ≡ mib
      → Supplies w d g s
      → (d == null) ≡ false
      → alloc_from_global os ndebug w t ≡ ok (with_chunk w t d g s, record t { head = d })
  unfolding alloc_from_global
  adopts w t d g s unit e ne = elim (Bool-cases ndebug) [
    | inl y ↦ rw (unit, e, ne, y) refl
    | inr n ↦ rw (unit, e, ne, n) refl
  ]

  faults :
      (w : World os) (t : TlsPool) (g : GlobalPool) (s : os.State)
      → GlobalPool.get_chunk_size w.global ≡ mib
      → Supplies w null g s
      → alloc_from_global os ndebug w t ≡ fault
  unfolding alloc_from_global
  faults w t g s unit e = elim (Bool-cases ndebug) [
    | inl y ↦ rw (unit, e, y) refl
    | inr n ↦ rw (unit, e, n) refl
  ]

  -- A pool with neither a free block nor room in its chunk, when `alloc_chunk` returns null,
  -- as it does where nothing is reserved: the program writes through a null pointer.
  pub alloc-null :
      (w : World os) (t : TlsPool) (g : GlobalPool) (s : os.State)
      → GlobalPool.get_chunk_size w.global ≡ mib
      → Starved w.memory t
      → Supplies w null g s
      → alloc os ndebug w t ≡ fault
  unfolding alloc alloc_from_local_pool
  alloc-null w t g s unit (none, dry) e = rw (none, dry, faults w t g s unit e) refl

  -- From the free list.
  free_Serves :
      (w : World os) (t : TlsPool) (cs : List Ptr) (p : Ptr) (fl : List Ptr) (k : Ptr → ℕ)
      (live : Ptr → Bool)
      → IsPool w.memory t cs (p ∷ fl) k live
      → Serves os ndebug w t live (t.free, w, counted (record t { free = read64 w.memory t.free }))
  free_Serves w t cs p fl k live v =
      let (at, pool, new, ne) = reused v p fl refl in
      (
        subst (λ x. live x ≡ false) (sym at) new,
        subst (λ x. x ≢ null) (sym at) ne,
        refl,
        (
          cs,
          fl,
          k,
          recount _ _ cs fl k _ _ (
              subst
                (λ x.
                  IsPool w.memory (record t { free = read64 w.memory t.free }) cs fl k
                    (update live x true))
                (sym at) pool),
        ),
        λ q x h lo hi. refl,
      )

  -- With room in the chunk at the head.
  room_Serves :
      (w : World os) (t : TlsPool) (cs fl : List Ptr) (k : Ptr → ℕ) (live : Ptr → Bool)
      → IsPool w.memory t cs fl k live
      → ((t.head == null) || (get_free_count w.memory t == 0)) ≡ false
      → Serves os ndebug w t live (
        (carve os ndebug w t).0,
        (carve os ndebug w t).1,
        record t { allocated = (t.allocated + 1) % 2 ^ 64 },
      )
  room_Serves w t [] fl k live v room = absurd (ground (arith, v.chunks))
  room_Serves w t (c ∷ cs) fl k live v room =
      carve-Serves os ndebug w t c cs fl k live _ v
        (get_free_count-room w.memory t c cs fl k live v (ground arith))

  -- A pool that is well formed, whose blocks fit into a chunk, and that gets a fresh chunk from
  -- the global pool if it needs one: `alloc` returns a block that was not in use, the pool stays
  -- well formed with that block in use, and the blocks that were in use keep their bytes.
  pub alloc-Serves :
      (w : World os) (t : TlsPool) (cs fl : List Ptr) (k : Ptr → ℕ) (live : Ptr → Bool)
      → IsPool w.memory t cs fl k live
      → sizeof_pool + t.alloc_size ≤ mib
      → GlobalPool.get_chunk_size w.global ≡ mib
      → (Starved w.memory t
          → (d : Ptr) × (g : GlobalPool) × (s : os.State) × Supplies w d g s × IsFresh cs d)
      → (r : Ptr × World os × TlsPool) × (alloc os ndebug w t ≡ ok r) × Serves os ndebug w t live r
  unfolding alloc alloc_from_local_pool
  alloc-Serves w t cs fl k live v fits unit supply = elim (Bool-cases (t.free == null)) [
    | inl none ↦ elim (Bool-cases ((t.head == null) || (get_free_count w.memory t == 0))) [
      | inl dry ↦
          let (d, g, s, e, f) = supply (none, dry) in
          let w' : World os = with_chunk w t d g s in
          let got =
            fresh_Serves os ndebug w t cs fl k live ((t.allocated + 1) % 2 ^ 64) d w' v f fits
              refl in
          let at : (carve os ndebug w' (record t { head = d })).0 == null ≡ false =
            ne_null _ got.1 in
          (
            (
              (carve os ndebug w' (record t { head = d })).0,
              (carve os ndebug w' (record t { head = d })).1,
              counted (record t { head = d }),
            ),
            rw (none, dry, adopts w t d g s unit e (ne_null d (λ z. omega (arith, f.low))), at)
                refl,
            got,
          )
      | inr room ↦
          let got = room_Serves w t cs fl k live v room in
          let at : (carve os ndebug w t).0 == null ≡ false = ne_null _ got.1 in
          (
            ((carve os ndebug w t).0, (carve os ndebug w t).1, counted t),
            rw (none, room, at) refl,
            got,
          )
    ]
    | inr some ↦
        let (p, fl', e) = cons_of_head w.memory t.free fl some v.frees in
        let v' = subst (λ l. IsPool w.memory t cs l k live) e v in
        (
          (t.free, w, counted (record t { free = read64 w.memory t.free })),
          rw some (rw some refl),
          free_Serves w t cs p fl' k live v',
        )
  ]

  -- A block in use goes back to a well-formed pool: the pool stays well formed, the block is no
  -- longer in use, and the other blocks in use keep their bytes.
  pub dealloc-IsPool :
      (w : World os) (t : TlsPool) (cs fl : List Ptr) (k : Ptr → ℕ) (live : Ptr → Bool) (p : Ptr)
      → IsPool w.memory t cs fl k live
      → live p ≡ true
      → (w' : World os) × (t' : TlsPool) × (dealloc os ndebug w t p ≡ ok (w', t'))
        × IsPool w'.memory t' cs (p ∷ fl) k (update live p false)
        × Keeps (update live p false) t.alloc_size w.memory w'.memory
  unfolding dealloc
  dealloc-IsPool w t cs fl k live p v own =
      let wide : leb 8 t.alloc_size ≡ true = ground (arith, v.laid.wide) in
      let (pool, keeps) = freed v p ((t.allocated + 2 ^ 64 - 1) % 2 ^ 64) own in
      (
        with_memory w (write64 w.memory p t.free),
        record t { allocated = (t.allocated + 2 ^ 64 - 1) % 2 ^ 64; free = p },
        elim (Bool-cases ndebug) [ inl y ↦ rw (wide, y) refl | inr n ↦ rw (wide, n) refl ],
        pool,
        keeps,
      )
