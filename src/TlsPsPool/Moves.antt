-- ===== src/TlsPsPool/Moves.antt =====
-- What `dealloc`, and `alloc` from the free list, do to a well-formed pool.
use np_alloc.Prelude.{
  ℕ, ◌+◌, ◌^◌, ◌≤◌, ◌<◌, ◌≡◌, ◌≢◌, ◌==◌, inl, inr, refl, subst, ◌∙◌, Bool, true, false, List, ◌∷◌,
  arith, has, Bool-cases, ==_iff,
}
use np_alloc.Memory.{Memory, read64, write64, read64-write64, read64-write64_apart, write64-frame}
use np_alloc.LfStack.{Ptr, null, update}
use np_alloc.LfStack.Chain.{Chain, Chain-frame, Chain-head}
use np_alloc.TlsPsPool.{TlsPool, sizeof_pool, pool_curr}
use np_alloc.TlsPsPool.Blocks.{
  Block, Apart, IsLaid, IsPool, Block-Apart, Block-header, Block-inside,
}

-- The bytes of the blocks in use stay what they are.
abbrev pub Keeps : (live : Ptr → Bool) (size : ℕ) → Memory → Memory → Type 0
Keeps live size m m' = (q x : ℕ) → live q ≡ true → q ≤ x → x < q + size → m' x ≡ m x

-- A write of eight bytes to memory that is no header of a chunk.
pub IsLaid-write64 :
    {m : Memory} {cs : List Ptr} {k : Ptr → ℕ} {size : ℕ} (a x : ℕ)
    → IsLaid m cs k size
    → ((c : Ptr) → has c cs ≡ true → Apart a 8 c sizeof_pool)
    → IsLaid (write64 m a x) cs k size
IsLaid-write64 {m} a x v out = record {
  wide = v.wide;
  far = v.far;
  low = v.low;
  curr = λ c h. read64-write64_apart m (pool_curr c) a x (omega (arith, out c h)) ∙ v.curr c h;
  fits = v.fits;
}

pub Chain-write64 :
    (m : Memory) (l : List Ptr) (p : Ptr) (a x : ℕ)
    → ((q : Ptr) → has q l ≡ true → Apart q 8 a 8)
    → Chain (read64 m) p l
    → Chain (read64 (write64 m a x)) p l
Chain-write64 m l p a x out c =
    Chain-frame (read64 m) (read64 (write64 m a x)) p l
      (λ q h. read64-write64_apart m q a x (out q h)) c

module _ {m : Memory} {t : TlsPool} {cs fl : List Ptr} {k : Ptr → ℕ} {live : Ptr → Bool}
    (v : IsPool m t cs fl k live) where
  free_small : t.free < 2 ^ 64
  free_small = elim (Bool-cases (t.free == null)) [
    | inl z ↦ ground arith
    | inr some ↦
        let (c, h, j, lt, e) =
          v.free t.free (Chain-head (read64 m) t.free fl v.frees (λ z. ground arith)) in
        omega (arith, Block-inside v.laid t.free c j h lt e, v.laid.low c h, v.laid.wide)
  ]

  pub Block-ne-null : (p : Ptr) → Block cs k t.alloc_size p → p ≢ null
  Block-ne-null p (c, h, j, lt, e) z = omega (arith, Block-inside v.laid p c j h lt e)

  -- `dealloc` of a block in use.
  pub freed :
      (p : Ptr) (count : ℕ)
      → live p ≡ true
      → IsPool
          (write64 m p t.free)
          (record t { allocated = count; free = p })
          cs
          (p ∷ fl)
          k
          (update live p false)
        × Keeps (update live p false) t.alloc_size m (write64 m p t.free)
  freed p count own = (
    record {
      laid = IsLaid-write64 p t.free v.laid (λ c h. omega (arith, v.laid.wide, header c h));
      unit = v.unit;
      chunks =
          Chain-write64 m cs t.head p t.free (λ c h. omega (arith, v.laid.wide, header c h))
            v.chunks;
      frees = (
        refl,
        Block-ne-null p block,
        v.apart p own,
        rw (read64-write64 m p t.free free_small) (
            Chain-write64 m fl t.free p t.free (λ q h. omega (arith, v.laid.wide, others q h))
              v.frees),
      );
      free = λ q h. elim (Bool-cases (q == p)) [
        | inl e ↦ rw ((==_iff q p).0 e) block
        | inr e ↦ v.free q (ground arith)
      ];
      used = λ q h. v.used q (ground arith);
      apart = λ q h. ground (arith, v.apart q);
    },
    λ q x h lo hi.
        let ne : q ≢ p = λ z. ground arith in
        let q-block = v.used q (ground arith) in
        write64-frame m p t.free x
          (omega (arith, Block-Apart v.laid q p q-block block ne, v.laid.wide)),
  )
    where
      block : Block cs k t.alloc_size p
      block = v.used p own

      header : (c : Ptr) → has c cs ≡ true → Apart p t.alloc_size c sizeof_pool
      header c h = Block-header v.laid p block c h

      others : (q : Ptr) → has q fl ≡ true → Apart q t.alloc_size p t.alloc_size
      others q h = Block-Apart v.laid q p (v.free q h) block (λ e. ground (arith, v.apart p own))

  -- `alloc` from the free list.
  pub reused :
      (p : Ptr) (fl' : List Ptr)
      → fl ≡ p ∷ fl'
      → (t.free ≡ p)
        × IsPool m (record t { free = read64 m t.free }) cs fl' k (update live p true)
        × (live p ≡ false)
        × (p ≢ null)
  reused p fl' e = (
    c.0,
    record {
      laid = v.laid;
      unit = v.unit;
      chunks = v.chunks;
      frees = rw c.0 c.3;
      free = λ q h. v.free q (rw e (ground arith));
      used = λ q h. elim (Bool-cases (p == q)) [
        | inl same ↦ rw (← (==_iff p q).0 same) (v.free p (rw e (ground arith)))
        | inr other ↦ v.used q (ground arith)
      ];
      apart = λ q h. ground (arith, v.apart q, c.2, e);
    },
    ground (arith, v.apart p, e),
    c.1,
  )
    where
      c : Chain (read64 m) t.free (p ∷ fl')
      c = subst (λ x. Chain (read64 m) t.free x) e v.frees
