-- ===== src/Allocator/Carve.antt =====
-- One more block from the chunk at the head of a pool.
use np_alloc.Prelude.{
  ℕ, ◌+◌, ◌*◌, ◌^◌, ◌≤◌, ◌<◌, ◌≡◌, ◌≢◌, ◌==◌, refl, sym, ◌∙◌, true, false, List, ◌∷◌, has, arith,
  ap, ℕ_discrete, inl, inr, Bool-cases, ==_iff,
}
use np_alloc.Memory.{Memory, read64, write64, read64-write64, read64-write64_apart, write64-frame}
use np_alloc.LfStack.{Ptr, null, update}
use np_alloc.Mmap.{Mmap}
use np_alloc.Mmap.Chunks.{mib}
use np_alloc.TlsPsPool.{TlsPool, sizeof_pool, pool_curr}
use np_alloc.TlsPsPool.Blocks.{next_index}
use np_alloc.TlsPsPool.Carve.{next_block}
use np_alloc.Allocator.{Shape, IsBlock, IsLocal, Books, IsAllocator}
use np_alloc.Allocator.Layout.{
  IsSpared, Same, IsBlock-inside, block-header, chunks-Apart, chunk_low, waiting-Apart, global-Same,
  chunks-Same, frees-Same,
}
use np_alloc.Allocator.Moves.{update_all, update_disjoint, KeepsLive, live-IsBlock}
use np_alloc.Allocator.Reuse.{used_more}

-- One more block has been carved from `c`.
abbrev pub bumped : Shape → Ptr → Shape
bumped s c = record s { count = update s.count c (s.count c + 1) }

-- The head chunk `c` of pool `i` has room.
module _ {m : Memory} {mm : Mmap} {pools : ℕ → TlsPool} {b : Books} (v : IsAllocator m mm pools b)
    (i : ℕ) (c : Ptr) (cs : List Ptr) (n : ℕ) (front : b.chunks i ≡ c ∷ cs)
    (room : next_block b.shape.count (pools i).alloc_size c + (pools i).alloc_size ≤ c + mib) where
  abbrev size : ℕ
  size = (pools i).alloc_size

  abbrev p : ℕ
  p = next_block b.shape.count (pools i).alloc_size c

  abbrev m' : Memory
  m' = write64 m (pool_curr c) (p + size)

  given_c : (b.shape.given c ≡ true) × (b.shape.size c ≡ size)
  given_c = (v.local i).mine c (rw front (ground arith))

  -- One block of chunk `c`, for the program.
  abbrev pub carve_books : Books
  carve_books = record b {
    shape = bumped b.shape c;
    chunks = update b.chunks i (b.chunks i);
    frees = update b.frees i (b.frees i);
    live = update b.live p (pools i).alloc_size;
  }

  grow : (s q : ℕ) → IsBlock b.shape s q → IsBlock (bumped b.shape c) s q
  grow s q (d, h, same, j, lt, e) = (d, h, same, j, ground arith, e)

  block : IsBlock (bumped b.shape c) size p
  block = (c, given_c.0, given_c.1, b.shape.count c, ground arith, refl)

  -- The new block is none of the old ones, of whatever size.
  fresh : (s : ℕ) → IsBlock b.shape s p → ⊥
  fresh s (d, h, same, j, lt, e) = elim (ℕ_discrete c d) [
    | yes one ↦
        let eq : s ≡ size = sym same ∙ ap b.shape.size (sym one) ∙ given_c.1 in
        let step : j * s ≡ j * size = ap (λ (x : ℕ). j * x) eq in
        let at : b.shape.count d ≡ b.shape.count c = ap b.shape.count (sym one) in
        omega (arith, next_index j (b.shape.count c) size (omega arith), step, (v.local i).wide)
    | no other ↦ omega (
      arith,
      IsBlock-inside v s p (d, h, same, j, lt, e),
      chunks-Apart v c d given_c.0 h other,
      (v.local i).wide,
    )
  ]

  spared : IsSpared b (pool_curr c) 8
  spared = record {
    heads = λ d h. elim (ℕ_discrete c d) [
      | yes one ↦ omega arith
      | no other ↦ omega (arith, chunks-Apart v c d given_c.0 h other)
    ];
    waits = λ d h. omega (arith, waiting-Apart v d c h given_c.0);
    blocks = λ j q h.
        let k = (v.local j).free q h in
        omega (
          arith,
          block-header v (pools j).alloc_size q k c given_c.0,
          IsBlock-inside v (pools j).alloc_size q k,
        );
  }

  same : Same (pool_curr c) 8 m m'
  same y out = write64-frame m (pool_curr c) (p + size) y out

  bump : update b.shape.count c (b.shape.count c + 1) c * size ≡ b.shape.count c * size + size
  bump =
      let e : update b.shape.count c (b.shape.count c + 1) c ≡ b.shape.count c + 1 = ground arith in
      rw e (omega arith)

  bound : p + size < 2 ^ 64
  bound = omega (arith, room, chunk_low v c given_c.0)

  currs :
      (d : Ptr)
      → b.shape.given d ≡ true
      → read64 m' (pool_curr d)
        ≡ d + sizeof_pool + update b.shape.count c (b.shape.count c + 1) d * b.shape.size d
  currs d h = elim (Bool-cases (c == d)) [
    | inl e ↦
        rw (← (==_iff c d).0 e, given_c.1)
          (read64-write64 m (pool_curr c) (p + size) bound ∙ omega (arith, bump))
    | inr e ↦
        let other : update b.shape.count c (b.shape.count c + 1) d ≡ b.shape.count d = rw e refl in
        rw other (
          read64-write64_apart m (pool_curr d) (pool_curr c) (p + size)
            (omega (arith, chunks-Apart v c d given_c.0 h (λ z. ground (arith, z, e))))
          ∙ v.curr d h)
  ]

  fits :
      (d : Ptr)
      → b.shape.given d ≡ true
      → sizeof_pool + update b.shape.count c (b.shape.count c + 1) d * b.shape.size d ≤ mib
  fits d h = elim (Bool-cases (c == d)) [
    | inl e ↦ rw (← (==_iff c d).0 e, given_c.1) (omega (arith, bump, room))
    | inr e ↦
        let other : update b.shape.count c (b.shape.count c + 1) d ≡ b.shape.count d = rw e refl in
        rw other (v.fits d h)
  ]

  local :
      (j k : ℕ)
      → IsLocal m' (bumped b.shape c) (record (pools j) { allocated = k }) (b.chunks j) (b.frees j)
  local j k = record {
    unit = (v.local j).unit;
    wide = (v.local j).wide;
    fit = (v.local j).fit;
    chunks = chunks-Same v (pool_curr c) 8 m' spared same j;
    frees = frees-Same v (pool_curr c) 8 m' spared same j;
    mine = (v.local j).mine;
    free = λ q h. grow (pools j).alloc_size q ((v.local j).free q h);
  }

  not_free : (j : ℕ) → has p (b.frees j) ≡ false
  not_free j = elim (Bool-cases (has p (b.frees j))) [
    | inl t ↦ absurd (fresh (pools j).alloc_size ((v.local j).free p t))
    | inr f ↦ f
  ]

  not_used : b.live p ≡ 0
  not_used = elim (ℕ_discrete (b.live p) 0) [
    | yes e ↦ e
    | no ne ↦ absurd (fresh (b.live p) (v.used p ne))
  ]

  still_idle : (j : ℕ) (q : Ptr) → has q (b.frees j) ≡ true → update b.live p size q ≡ 0
  still_idle j q h =
      let other : (p == q) ≡ false = ground (arith, not_free j, h) in rw other (v.idle j q h)

  pub carve-IsAllocator :
      IsAllocator m' mm (update pools i (record (pools i) { allocated = n })) carve_books
      × (b.live p ≡ 0)
      × (p ≢ null)
      × KeepsLive b m m'
  carve-IsAllocator = (
    record {
      global = global-Same v (pool_curr c) 8 m' spared same;
      high = v.high;
      wide = v.wide;
      curr = currs;
      fits = fits;
      local =
          update_all (IsLocal m' (bumped b.shape c)) pools b.chunks b.frees i _ (b.chunks i)
            (b.frees i) (local i n) (λ j. local j (pools j).allocated);
      own = update_disjoint b.chunks i (b.chunks i) v.own (λ k q ne h. v.own i k q ne h);
      alone = update_disjoint b.frees i (b.frees i) v.alone (λ k q ne h. v.alone i k q ne h);
      used = used_more b.shape (bumped b.shape c) b.live p size grow v.used block;
      idle =
          update_all (λ _ _ fl. (q : Ptr) → has q fl ≡ true → update b.live p size q ≡ 0) pools
            b.chunks b.frees i (pools i) (b.chunks i) (b.frees i) (still_idle i) still_idle;
    },
    not_used,
    λ z. omega (arith, chunk_low v c given_c.0),
    λ q y lo hi.
        let k = live-IsBlock v q y lo hi in
        same y (omega (arith, block-header v (b.live q) q k c given_c.0)),
  )
