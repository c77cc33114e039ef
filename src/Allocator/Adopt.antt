-- ===== src/Allocator/Adopt.antt =====
-- A new chunk joins a pool.
use np_alloc.Prelude.{
  ℕ, ◌+◌, ◌*◌, ◌^◌, ◌≤◌, ◌<◌, ◌≡◌, ◌==◌, refl, sym, ◌∙◌, true, false, List, ◌∷◌, has, arith, inl,
  inr, Bool-cases, ==_iff,
}
use np_alloc.Memory.{Memory, read64, write64, read64-write64, read64-write64_apart, write64-frame}
use np_alloc.LfStack.{Ptr, null, update}
use np_alloc.LfStack.Chain.{Chain, Chain-frame, Chain-head}
use np_alloc.Mmap.{Mmap, Os}
use np_alloc.Mmap.Chunks.{mib, chunk_apart}
use np_alloc.Mmap.Chunks as Chunks
use np_alloc.TlsPsPool.{TlsPool, sizeof_pool, pool_curr}
use np_alloc.TlsPsPool.Blocks.{Apart}
use np_alloc.TlsPsPool.Adopt.{headed}
use np_alloc.Allocator.{Shape, IsBlock, IsLocal, Books, IsAllocator}
use np_alloc.Allocator.Layout.{Same, Outside, read64-Same, IsBlock-inside, chunk_low}
use np_alloc.Allocator.Moves.{update_all, update_disjoint, KeepsLive, live-IsBlock}
use np_alloc.Allocator.Supply.{Gives}

-- The new chunk `d`, for blocks of `n` bytes.
abbrev pub with_chunk : Shape → Ptr → (n : ℕ) → Shape
with_chunk s d n = record {
  given = update s.given d true;
  size = update s.size d n;
  count = update s.count d 0;
}

module _ (os : Os) {m : Memory} {mm : Mmap} {pools : ℕ → TlsPool} {b : Books}
    (v : IsAllocator m mm pools b) (i : ℕ) (d : Ptr) (mm' : Mmap) (s' : os.State) (made : ℕ)
    (waiting : List Ptr) (g : Gives os m mm b.shape.given d mm' s' made waiting) where
  abbrev size : ℕ
  size = (pools i).alloc_size

  abbrev shape' : Shape
  shape' = with_chunk b.shape d (pools i).alloc_size

  abbrev m' : Memory
  m' = headed m d (pools i).head

  abbrev pub adopt_books : Books
  adopt_books = record b {
    made = made;
    waiting = waiting;
    shape = with_chunk b.shape d (pools i).alloc_size;
    chunks = update b.chunks i (d ∷ b.chunks i);
    frees = update b.frees i (b.frees i);
  }

  own_d : update b.shape.given d true d ≡ true
  own_d = ground arith

  old : (c : Ptr) → b.shape.given c ≡ true → (d == c) ≡ false
  old c h = ground (arith, g.1, h)

  new-Apart : (c : Ptr) → b.shape.given c ≡ true → Apart c mib d mib
  new-Apart c h =
      let other = old c h in
      let (j, lt, e) = g.0.used c (rw other h) in
      let (k, lt', f) = g.0.used d own_d in
      chunk_apart mm' c d j k e f (λ z. ground (arith, z, other))

  waiting-Apart : (c : Ptr) → has c waiting ≡ true → Apart c mib d mib
  waiting-Apart c h =
      let (j, lt, e) = g.0.free c h in
      let (k, lt', f) = g.0.used d own_d in
      chunk_apart mm' c d j k e f (λ z. ground (arith, g.0.apart d own_d, z, h))

  pub new_low : (0 < d) × (d + mib < 2 ^ 63)
  new_low =
      let (j, lt, e) = g.0.used d own_d in omega (arith, g.0.few, g.0.placed.base, v.high, g.2)

  same : Same d 16 m m'
  same y out =
      write64-frame (write64 m (pool_curr d) (d + sizeof_pool)) d (pools i).head y (omega arith)
      ∙ write64-frame m (pool_curr d) (d + sizeof_pool) y (omega arith)

  new_placed : (mm.ptr ≤ d) × (d + mib ≤ mm.ptr + 4096 * mib)
  new_placed = let (j, lt, e) = g.0.used d own_d in omega (arith, g.0.few, g.2)

  pub adopt-Outside : Outside mm.ptr m m'
  adopt-Outside y out = same y (omega (arith, out, new_placed))

  block-Apart : (s q : ℕ) → IsBlock b.shape s q → Apart q s d 16
  block-Apart s q k = omega (arith, IsBlock-inside v s q k, new-Apart k.0 k.1)

  grow : (s q : ℕ) → IsBlock b.shape s q → IsBlock shape' s q
  grow s q (c, h, at, j, lt, e) =
      let other = old c h in (c, rw other h, rw other at, j, rw other lt, e)

  chunks : (j : ℕ) → Chain (read64 m') (pools j).head (b.chunks j)
  chunks j =
      Chain-frame (read64 m) (read64 m') (pools j).head (b.chunks j)
        (λ q h. read64-Same m m' d 16 q same (omega (arith, new-Apart q ((v.local j).mine q h).0)))
        (v.local j).chunks

  frees : (j : ℕ) → Chain (read64 m') (pools j).free (b.frees j)
  frees j =
      Chain-frame (read64 m) (read64 m') (pools j).free (b.frees j)
        (λ q h.
          let k = (v.local j).free q h in
          read64-Same m m' d 16 q same (
            omega (
              arith,
              block-Apart (pools j).alloc_size q k,
              IsBlock-inside v (pools j).alloc_size q k,
            )))
        (v.local j).frees

  mine :
      (j : ℕ) (c : Ptr)
      → has c (b.chunks j) ≡ true
      → (shape'.given c ≡ true) × (shape'.size c ≡ (pools j).alloc_size)
  mine j c h =
      let (h', at) = (v.local j).mine c h in let other = old c h' in (rw other h', rw other at)

  not_mine : (j : ℕ) → has d (b.chunks j) ≡ false
  not_mine j = elim (Bool-cases (has d (b.chunks j))) [
    | inl t ↦ absurd (ground (arith, (v.local j).mine d t, g.1))
    | inr f ↦ f
  ]

  head_small : (pools i).head < 2 ^ 64
  head_small = elim (Bool-cases ((pools i).head == null)) [
    | inl z ↦ ground arith
    | inr some ↦
        let h =
          Chain-head (read64 m) (pools i).head (b.chunks i) (v.local i).chunks
            (λ z. ground arith) in
        omega (arith, chunk_low v (pools i).head ((v.local i).mine (pools i).head h).0)
  ]

  linked : read64 m' d ≡ (pools i).head
  linked = read64-write64 (write64 m (pool_curr d) (d + sizeof_pool)) d (pools i).head head_small

  changed : IsLocal m' shape' (record (pools i) { head = d }) (d ∷ b.chunks i) (b.frees i)
  changed = record {
    unit = (v.local i).unit;
    wide = (v.local i).wide;
    fit = (v.local i).fit;
    chunks = (refl, λ z. omega (arith, new_low), not_mine i, rw linked (chunks i));
    frees = frees i;
    mine = λ c h. elim (Bool-cases (d == c)) [
      | inl e ↦ rw e (refl, refl)
      | inr e ↦ mine i c (ground arith)
    ];
    free = λ q h. grow (pools i).alloc_size q ((v.local i).free q h);
  }

  others : (j : ℕ) → IsLocal m' shape' (pools j) (b.chunks j) (b.frees j)
  others j = record {
    unit = (v.local j).unit;
    wide = (v.local j).wide;
    fit = (v.local j).fit;
    chunks = chunks j;
    frees = frees j;
    mine = mine j;
    free = λ q h. grow (pools j).alloc_size q ((v.local j).free q h);
  }

  currs :
      (c : Ptr)
      → shape'.given c ≡ true
      → read64 m' (pool_curr c) ≡ c + sizeof_pool + shape'.count c * shape'.size c
  currs c h = elim (Bool-cases (d == c)) [
    | inl e ↦
        rw (e, ← (==_iff d c).0 e)
          (read64-write64_apart (write64 m (pool_curr d) (d + sizeof_pool)) (pool_curr d) d
              (pools i).head (omega arith)
            ∙ read64-write64 m (pool_curr d) (d + sizeof_pool) (omega (arith, new_low))
            ∙ omega arith)
    | inr e ↦
        let at : shape'.given c ≡ b.shape.given c = rw e refl in
        let h' = sym at ∙ h in
        rw e
          (read64-Same m m' d 16 (pool_curr c) same (omega (arith, new-Apart c h')) ∙ v.curr c h')
  ]

  bounds :
      (c : Ptr)
      → shape'.given c ≡ true
      → (8 ≤ shape'.size c) × (sizeof_pool + shape'.count c * shape'.size c ≤ mib)
  bounds c h = elim (Bool-cases (d == c)) [
    | inl e ↦ rw e ((v.local i).wide, omega arith)
    | inr e ↦
        let at : shape'.given c ≡ b.shape.given c = rw e refl in
        rw e (v.wide c (sym at ∙ h), v.fits c (sym at ∙ h))
  ]

  global : Chunks.IsPool m' mm' made waiting (update b.shape.given d true)
  global = record {
    placed = g.0.placed;
    few = g.0.few;
    top = g.0.top;
    chain =
        Chain-frame (read64 m) (read64 m') mm'.free_head.ptr waiting
          (λ q h. read64-Same m m' d 16 q same (omega (arith, waiting-Apart q h))) g.0.chain;
    free = g.0.free;
    used = g.0.used;
    apart = g.0.apart;
    covered = g.0.covered;
  }

  pub adopt-IsAllocator :
      IsAllocator m' mm' (update pools i (record (pools i) { head = d })) adopt_books
      × KeepsLive b m m'
  adopt-IsAllocator = (
    record {
      global = global;
      high = rw g.2 v.high;
      wide = λ c h. (bounds c h).0;
      curr = currs;
      fits = λ c h. (bounds c h).1;
      local =
          update_all (IsLocal m' shape') pools b.chunks b.frees i _ (d ∷ b.chunks i) (b.frees i)
            changed others;
      own = update_disjoint b.chunks i (d ∷ b.chunks i) v.own λ k c ne h.
          elim (Bool-cases (c == d)) [
            | inl e ↦ rw ((==_iff c d).0 e) (not_mine k)
            | inr e ↦ v.own i k c ne (ground arith)
          ];
      alone = update_disjoint b.frees i (b.frees i) v.alone (λ k q ne h. v.alone i k q ne h);
      used = λ q h. grow (b.live q) q (v.used q h);
      idle =
          update_all (λ _ _ fl. (q : Ptr) → has q fl ≡ true → b.live q ≡ 0) pools b.chunks b.frees i
            (pools i) (b.chunks i) (b.frees i) (v.idle i) v.idle;
    },
    λ q y lo hi. same y (omega (arith, block-Apart (b.live q) q (live-IsBlock v q y lo hi))),
  )
