-- ===== src/Allocator/Ways.antt =====
-- The ways of `alloc` of a pool among the others: from the free list, from the chunk at the head,
-- and from a new chunk.
use np_alloc.Prelude.{
  ℕ, ◌+◌, ◌*◌, ◌%◌, ◌^◌, ◌≤◌, ◌≡◌, ◌≢◌, ◌==◌, refl, subst, fun_ext, ◌∙◌, true, false, List, ◌∷◌,
  arith, inl, inr, Bool-cases,
}
use np_alloc.Memory.{read64, write64-frame}
use np_alloc.LfStack.{Ptr, null, update}
use np_alloc.LfStack.Chain.{Chain}
use np_alloc.Mmap.{Os}
use np_alloc.Mmap.Chunks.{mib}
use np_alloc.GlobalPool.{GlobalPool}
use np_alloc.TlsPsPool.{TlsPool, World, sizeof_pool, pool_curr, carve}
use np_alloc.TlsPsPool.Carve.{next_block}
use np_alloc.TlsPsPool.Alloc.{carve_at}
use np_alloc.TlsPsPool.Serve.{cons_of_head, counted, with_chunk}
use np_alloc.Allocator.{Books, IsAllocator}
use np_alloc.Allocator.Layout.{Outside, chunk_low, chunk_placed}
use np_alloc.Allocator.Moves.{KeepsLive}
use np_alloc.Allocator.Reuse.{take, take-IsAllocator}
use np_alloc.Allocator.Carve.{carve_books, carve-IsAllocator}
use np_alloc.Allocator.Supply.{Gives}
use np_alloc.Allocator.Adopt.{adopt_books, adopt-IsAllocator, adopt-Outside}

pub update_at {ℓ} : {A : Type ℓ} (f : ℕ → A) (i : ℕ) (x : A) → update f i x i ≡ x
update_at f i x = let e : (i == i) ≡ true = ground arith in rw e refl

update_twice {ℓ} :
    {A : Type ℓ} (f : ℕ → A) (i : ℕ) (x y : A) → update (update f i x) i y ≡ update f i y
update_twice f i x y =
    fun_ext λ j. elim (Bool-cases (i == j)) [ inl e ↦ rw e refl | inr e ↦ rw e refl ]

module _ (os : Os) where
  -- Pool `i` serves block `p`: the program did not use it, and now it does; the blocks that the
  -- program uses keep their bytes.
  abbrev pub Serves :
      World os → (pools : ℕ → TlsPool) → Books → (i : ℕ) → Ptr × World os × TlsPool → Type 0
  Serves w pools b i (p, w', t') =
      (t'.alloc_size ≡ (pools i).alloc_size)
      × (b.live p ≡ 0)
      × (p ≢ null)
      × KeepsLive b w.memory w'.memory
      × ((b' : Books) × IsAllocator w'.memory w'.global (update pools i t') b'
          × (b'.live ≡ update b.live p (pools i).alloc_size))
      × (w'.global.ptr ≡ w.global.ptr)
      × Outside w.global.ptr w.memory w'.memory

  -- The rest of it, for a block that pool `i`, which is `t`, carves.
  abbrev Rest : World os → (pools : ℕ → TlsPool) → Books → (i n : ℕ) → TlsPool → Type 0
  Rest w pools b i n t =
      let (p, w') = carve os false w t in
      (b.live p ≡ 0)
      × (p ≢ null)
      × KeepsLive b w.memory w'.memory
      × ((b' : Books) × IsAllocator w'.memory w'.global
            (update pools i (record t { allocated = n })) b'
          × (b'.live ≡ update b.live p t.alloc_size))
      × (w'.global.ptr ≡ w.global.ptr)
      × Outside w.global.ptr w.memory w'.memory

  module _ (w : World os) (pools : ℕ → TlsPool) (b : Books)
      (v : IsAllocator w.memory w.global pools b) where
    -- Chunk `c` at the head of the pool.
    pub head_lem :
        (i : ℕ) (c : Ptr) (cs : List Ptr)
        → b.chunks i ≡ c ∷ cs
        → ((pools i).head ≡ c)
          × (b.shape.given c ≡ true)
          × (b.shape.size c ≡ (pools i).alloc_size)
          × (read64 w.memory (pool_curr c) ≡ next_block b.shape.count (pools i).alloc_size c)
          × (sizeof_pool + b.shape.count c * (pools i).alloc_size ≤ mib)
    head_lem i c cs e =
        let chain = subst (λ l. Chain (read64 w.memory) (pools i).head l) e (v.local i).chunks in
        let (given, size) = (v.local i).mine c (rw e (ground arith)) in
        (chain.0, given, size, rw (← size) (v.curr c given), rw (← size) (v.fits c given))

    pub room_Serves :
        (i : ℕ) (c : Ptr) (cs : List Ptr) (n : ℕ)
        → b.chunks i ≡ c ∷ cs
        → next_block b.shape.count (pools i).alloc_size c + (pools i).alloc_size ≤ c + mib
        → Serves w pools b i (
          (carve os false w (pools i)).0,
          (carve os false w (pools i)).1,
          record (pools i) { allocated = n },
        )
    room_Serves i c cs n e room =
        let (at, given, size, curr, fits) = head_lem i c cs e in
        let step =
          carve_at os false w (pools i) c (next_block b.shape.count (pools i).alloc_size c) at curr
            (omega (arith, chunk_low v c given, room)) in
        let (v', new, some, keeps) = carve-IsAllocator v i c cs n e room in
        rw step (
          refl,
          new,
          some,
          keeps,
          (carve_books v i c cs n e room, v', refl),
          refl,
          λ y out.
              write64-frame w.memory (pool_curr c) _ y (omega (arith, out, chunk_placed v c given)),
        )

    pub free_Serves :
        (i : ℕ)
        → ((pools i).free == null) ≡ false
        → Serves w pools b i (
          (pools i).free,
          w,
          counted (record (pools i) { free = read64 w.memory (pools i).free }),
        )
    free_Serves i some =
        let (p, fl, e) = cons_of_head w.memory (pools i).free (b.frees i) some (v.local i).frees in
        let n : ℕ = ((pools i).allocated + 1) % 2 ^ 64 in
        let (at, v', new, ne) = take-IsAllocator v i p fl n e in
        rw at (
          refl,
          new,
          ne,
          λ q y lo hi. refl,
          (
            take v i p fl,
            subst
                (λ x.
                  IsAllocator w.memory w.global
                    (update pools i (record (pools i) { free = read64 w.memory x; allocated = n }))
                    (take v i p fl))
                at v',
            refl,
          ),
          refl,
          λ y out. refl,
        )

  -- The pool takes the chunk `d`, and carves its first block.
  pub fresh_Serves :
      (w : World os) (pools : ℕ → TlsPool) (b : Books)
      → (v : IsAllocator w.memory w.global pools b)
      → (i : ℕ) (d : Ptr) (g : GlobalPool) (s : os.State) (made : ℕ) (waiting : List Ptr)
      → Gives os w.memory w.global b.shape.given d g s made waiting
      → Serves w pools b i (
        (carve os false (with_chunk os false w (pools i) d g s) (record (pools i) { head = d })).0,
        (carve os false (with_chunk os false w (pools i) d g s) (record (pools i) { head = d })).1,
        counted (record (pools i) { head = d }),
      )
  fresh_Serves w pools b v i d g s made waiting gives =
      let (v', keeps) = adopt-IsAllocator os v i d g s made waiting gives in
      let w' : World os = with_chunk os false w (pools i) d g s in
      let t : TlsPool = record (pools i) { head = d } in
      let pools' : ℕ → TlsPool = update pools i t in
      let b' : Books = adopt_books os v i d g s made waiting gives in
      let at : pools' i ≡ t = update_at pools i t in
      let none : update b.shape.count d 0 d ≡ 0 = update_at b.shape.count d 0 in
      let room : next_block b'.shape.count (pools' i).alloc_size d + (pools' i).alloc_size
          ≤ d + mib =
        rw (at, none) (omega (arith, (v.local i).fit)) in
      let n : ℕ = (t.allocated + 1) % 2 ^ 64 in
      let (same, new₁, some₁, keeps₁, books₁, fixed₁, outside₁) =
        room_Serves w' pools' b' v' i d (b.chunks i) n (update_at b.chunks i _) room in
      let (new, some, keeps', (b'', v'', live), fixed, outside) =
        subst (λ x. Rest w' pools' b' i n x) at (new₁, some₁, keeps₁, books₁, fixed₁, outside₁) in
      (
        refl,
        new,
        some,
        λ q y lo hi. keeps' q y lo hi ∙ keeps q y lo hi,
        (
          b'',
          subst
              (λ x. IsAllocator (carve os false w' t).1.memory (carve os false w' t).1.global x b'')
              (update_twice pools i t _) v'',
          live,
        ),
        fixed ∙ gives.2,
        λ y out.
            outside y (omega (arith, out, gives.2))
            ∙ adopt-Outside os v i d g s made waiting gives y out,
      )
