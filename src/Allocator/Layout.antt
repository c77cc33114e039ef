-- ===== src/Allocator/Layout.antt =====
-- Blocks, headers of chunks and chunks that wait do not overlap.
use np_alloc.Prelude.{
  ℕ, ◌+◌, ◌*◌, ◌^◌, ◌≤◌, ◌<◌, ◌≡◌, ◌≢◌, ◌⊎◌, ap, sym, ◌∙◌, true, false, has, arith, dec_lt,
  ℕ_discrete,
}
use np_alloc.Memory.{Memory, read64, read64-frame}
use np_alloc.LfStack.{Ptr}
use np_alloc.LfStack.Chain.{Chain, Chain-frame}
use np_alloc.Mmap.{Mmap}
use np_alloc.Mmap.Chunks.{mib, chunk_apart}
use np_alloc.Mmap.Chunks as Chunks
use np_alloc.TlsPsPool.{TlsPool, sizeof_pool, pool_curr}
use np_alloc.TlsPsPool.Blocks.{Apart, next_index}
use np_alloc.Allocator.{IsBlock, IsLocal, Books, IsAllocator}

-- What one write of `n` bytes at `a` must leave alone.
pub record IsSpared (b : Books) (a n : ℕ) : Type 0 where
  pub heads : (c : Ptr) → b.shape.given c ≡ true → Apart c 8 a n
  pub waits : (c : Ptr) → has c b.waiting ≡ true → Apart c 8 a n
  pub blocks : (i : ℕ) (p : Ptr) → has p (b.frees i) ≡ true → Apart p 8 a n

abbrev pub Same : (a n : ℕ) → Memory → Memory → Type 0
Same a n m m' = (y : ℕ) → (y < a) ⊎ (a + n ≤ y) → m' y ≡ m y

-- Memory outside the reservation at `base` is the same.
abbrev pub Outside : (base : ℕ) → Memory → Memory → Type 0
Outside base m m' = (y : ℕ) → (y < base) ⊎ (base + 4096 * mib ≤ y) → m' y ≡ m y

pub read64-Same :
    (m m' : Memory) (a n q : ℕ) → Same a n m m' → Apart q 8 a n → read64 m' q ≡ read64 m q
read64-Same m m' a n q same out = read64-frame m m' q (λ y lo hi. same y (omega arith))

module _ {m : Memory} {mm : Mmap} {pools : ℕ → TlsPool} {b : Books}
    (v : IsAllocator m mm pools b) where
  pub chunks-Apart :
      (c d : Ptr) → b.shape.given c ≡ true → b.shape.given d ≡ true → c ≢ d → Apart c mib d mib
  chunks-Apart c d h h' ne =
      let (i, lt, e) = v.global.used c h in
      let (j, lt', f) = v.global.used d h' in chunk_apart mm c d i j e f ne

  pub chunk_low : (c : Ptr) → b.shape.given c ≡ true → (0 < c) × (c + mib < 2 ^ 63)
  chunk_low c h =
      let (i, lt, e) = v.global.used c h in
      omega (arith, v.global.few, v.global.placed.base, v.high)

  -- A chunk lies in the reservation.
  pub chunk_placed :
      (c : Ptr) → b.shape.given c ≡ true → (mm.ptr ≤ c) × (c + mib ≤ mm.ptr + 4096 * mib)
  chunk_placed c h = let (i, lt, e) = v.global.used c h in omega (arith, v.global.few)

  pub waiting-Apart :
      (c d : Ptr) → has c b.waiting ≡ true → b.shape.given d ≡ true → Apart c mib d mib
  waiting-Apart c d h h' =
      let (i, lt, e) = v.global.free c h in
      let (j, lt', f) = v.global.used d h' in
      chunk_apart mm c d i j e f (λ z. ground (arith, v.global.apart d h'))

  -- A block lies in its chunk, behind the header.
  pub IsBlock-inside :
      (s p : ℕ)
      → (k : IsBlock b.shape s p) → (k.0 + sizeof_pool ≤ p) × (p + s ≤ k.0 + mib) × (8 ≤ s)
  IsBlock-inside s p (c, h, same, j, lt, e) =
      let fits : sizeof_pool + b.shape.count c * s ≤ mib = rw (← same) (v.fits c h) in
      let wide : 8 ≤ s = rw (← same) (v.wide c h) in
      omega (arith, next_index j (b.shape.count c) s lt, fits, wide)

  pub blocks-Apart :
      (s s' p q : ℕ) → IsBlock b.shape s p → IsBlock b.shape s' q → p ≢ q → Apart p s q s'
  blocks-Apart s s' p q (c, h, same, i, lt, e) (d, h', same', j, lt', f) ne =
      elim (ℕ_discrete c d) [
        | yes one ↦
            let size : s ≡ s' = sym same ∙ ap b.shape.size one ∙ same' in
            let step : i * s ≡ i * s' = ap (λ (x : ℕ). i * x) size in
            elim (dec_lt i j) [
              | yes below ↦ omega (arith, next_index i j s' below)
              | no above ↦ elim (dec_lt j i) [
                | yes below ↦ omega (arith, next_index j i s' below)
                | no above' ↦
                    let eq : i ≡ j = omega arith in
                    absurd (ne (omega (arith, ap (λ (x : ℕ). x * s') eq)))
              ]
            ]
        | no other ↦ omega (
          arith,
          IsBlock-inside s p (c, h, same, i, lt, e),
          IsBlock-inside s' q (d, h', same', j, lt', f),
          chunks-Apart c d h h' other,
        )
      ]

  pub block-header :
      (s p : ℕ) → IsBlock b.shape s p → (d : Ptr) → b.shape.given d ≡ true → Apart p s d sizeof_pool
  block-header s p k d h' = elim (ℕ_discrete k.0 d) [
    | yes one ↦ omega (arith, IsBlock-inside s p k)
    | no other ↦ omega (arith, IsBlock-inside s p k, chunks-Apart k.0 d k.1 h' other)
  ]

  pub block-waiting :
      (s p : ℕ) → IsBlock b.shape s p → (d : Ptr) → has d b.waiting ≡ true → Apart p s d mib
  block-waiting s p k d h = omega (arith, IsBlock-inside s p k, waiting-Apart d k.0 h k.1)

  -- Two blocks that the program uses do not overlap.
  pub live-Apart :
      (p q : Ptr) → b.live p ≢ 0 → b.live q ≢ 0 → p ≢ q → Apart p (b.live p) q (b.live q)
  live-Apart p q h h' ne = blocks-Apart (b.live p) (b.live q) p q (v.used p h) (v.used q h') ne

  -- A block that is in no free list spares everything.
  pub block-IsSpared :
      (s p n : ℕ)
      → IsBlock b.shape s p
      → n ≤ s
      → ((i : ℕ) → has p (b.frees i) ≡ false)
      → IsSpared b p n
  block-IsSpared s p n k le out = record {
    heads = λ c h. omega (arith, block-header s p k c h);
    waits = λ c h. omega (arith, block-waiting s p k c h);
    blocks = λ i q h.
        let free = (v.local i).free q h in
        omega (
          arith,
          blocks-Apart (pools i).alloc_size s q p free k (λ z. ground (arith, out i)),
          IsBlock-inside (pools i).alloc_size q free,
        );
  }

  -- The links after a write that spares them.
  module _ (a n : ℕ) (m' : Memory) (out : IsSpared b a n) (same : Same a n m m') where
    pub global-Same : Chunks.IsPool m' mm b.made b.waiting b.shape.given
    global-Same = record {
      placed = v.global.placed;
      few = v.global.few;
      top = v.global.top;
      chain =
          Chain-frame (read64 m) (read64 m') mm.free_head.ptr b.waiting
            (λ q h. read64-Same m m' a n q same (out.waits q h)) v.global.chain;
      free = v.global.free;
      used = v.global.used;
      apart = v.global.apart;
      covered = v.global.covered;
    }

    pub chunks-Same : (i : ℕ) → Chain (read64 m') (pools i).head (b.chunks i)
    chunks-Same i =
        Chain-frame (read64 m) (read64 m') (pools i).head (b.chunks i)
          (λ q h. read64-Same m m' a n q same (out.heads q ((v.local i).mine q h).0))
          (v.local i).chunks

    pub frees-Same : (i : ℕ) → Chain (read64 m') (pools i).free (b.frees i)
    frees-Same i =
        Chain-frame (read64 m) (read64 m') (pools i).free (b.frees i)
          (λ q h. read64-Same m m' a n q same (out.blocks i q h)) (v.local i).frees

    pub IsLocal-Same : (i : ℕ) → IsLocal m' b.shape (pools i) (b.chunks i) (b.frees i)
    IsLocal-Same i = record {
      unit = (v.local i).unit;
      wide = (v.local i).wide;
      fit = (v.local i).fit;
      chunks = chunks-Same i;
      frees = frees-Same i;
      mine = (v.local i).mine;
      free = (v.local i).free;
    }

    -- The whole of it, where no `pool_curr` is written either.
    pub IsAllocator-Same :
        ((c : Ptr) → b.shape.given c ≡ true → Apart (pool_curr c) 8 a n) → IsAllocator m' mm pools b
    IsAllocator-Same currs = record {
      global = global-Same;
      high = v.high;
      wide = v.wide;
      curr = λ c h. read64-Same m m' a n (pool_curr c) same (currs c h) ∙ v.curr c h;
      fits = v.fits;
      local = IsLocal-Same;
      own = v.own;
      alone = v.alone;
      used = v.used;
      idle = v.idle;
    }
