-- ===== src/Allocator/Reuse.antt =====
-- `alloc` from the free list of a pool, and what all ways of `alloc` share.
use np_alloc.Prelude.{
  ℕ, ◌≡◌, ◌≢◌, ◌==◌, refl, subst, true, false, List, ◌∷◌, has, arith, inl, inr, Bool-cases, ==_iff,
}
use np_alloc.Memory.{Memory, read64}
use np_alloc.LfStack.{Ptr, null, update}
use np_alloc.LfStack.Chain.{Chain}
use np_alloc.Mmap.{Mmap}
use np_alloc.TlsPsPool.{TlsPool}
use np_alloc.Allocator.{Shape, IsBlock, IsLocal, Books, IsAllocator}
use np_alloc.Allocator.Moves.{update_all, update_disjoint}

-- The blocks in use, where one more is.
pub used_more :
    (s s' : Shape) (live : Ptr → ℕ) (p : Ptr) (n : ℕ)
    → ((b q : ℕ) → IsBlock s b q → IsBlock s' b q)
    → ((q : Ptr) → live q ≢ 0 → IsBlock s (live q) q)
    → IsBlock s' n p
    → (q : Ptr) → update live p n q ≢ 0
    → IsBlock s' (update live p n q) q
used_more s s' live p n grow old new q h = elim (Bool-cases (p == q)) [
  | inl e ↦ rw e (subst (λ x. IsBlock s' n x) ((==_iff p q).0 e) new)
  | inr e ↦
      let at : update live p n q ≡ live q = rw e refl in
      rw e (grow (live q) q (old q (subst (λ x. x ≢ 0) at h)))
]

module _ {m : Memory} {mm : Mmap} {pools : ℕ → TlsPool} {b : Books}
    (v : IsAllocator m mm pools b) where
  -- The first free block of pool `i` goes to the program.
  abbrev pub take : (i : ℕ) (p : Ptr) (fl : List Ptr) → Books
  take i p fl = record b {
    chunks = update b.chunks i (b.chunks i);
    frees = update b.frees i fl;
    live = update b.live p (pools i).alloc_size;
  }

  pub take-IsAllocator :
      (i : ℕ) (p : Ptr) (fl : List Ptr) (n : ℕ)
      → b.frees i ≡ p ∷ fl
      → ((pools i).free ≡ p)
        × IsAllocator m mm
            (update pools i (record (pools i) { free = read64 m (pools i).free; allocated = n }))
            (take i p fl)
        × (b.live p ≡ 0)
        × (p ≢ null)
  take-IsAllocator i p fl n e = (
    c.0,
    record {
      global = v.global;
      high = v.high;
      wide = v.wide;
      curr = v.curr;
      fits = v.fits;
      local =
          update_all (IsLocal m b.shape) pools b.chunks b.frees i _ (b.chunks i) fl changed v.local;
      own = update_disjoint b.chunks i (b.chunks i) v.own (λ k q ne h. v.own i k q ne h);
      alone = update_disjoint b.frees i fl v.alone (λ k q ne h. v.alone i k q ne (inside q h));
      used = used_more b.shape b.shape b.live p (pools i).alloc_size (λ s q k. k) v.used block;
      idle = idle';
    },
    v.idle i p front,
    c.1,
  )
    where
      c : Chain (read64 m) (pools i).free (p ∷ fl)
      c = subst (λ x. Chain (read64 m) (pools i).free x) e (v.local i).frees

      front : has p (b.frees i) ≡ true
      front = rw e (ground arith)

      inside : (q : Ptr) → has q fl ≡ true → has q (b.frees i) ≡ true
      inside q h = rw e (ground arith)

      block : IsBlock b.shape (pools i).alloc_size p
      block = (v.local i).free p front

      changed :
          IsLocal m b.shape
            (record (pools i) { free = read64 m (pools i).free; allocated = n })
            (b.chunks i)
            fl
      changed = record {
        unit = (v.local i).unit;
        wide = (v.local i).wide;
        fit = (v.local i).fit;
        chunks = (v.local i).chunks;
        frees = rw c.0 c.3;
        mine = (v.local i).mine;
        free = λ q h. (v.local i).free q (inside q h);
      }

      -- Of the free blocks that are left, none is `p`.
      idle' :
          (j : ℕ) (q : Ptr)
          → has q (update b.frees i fl j) ≡ true
          → update b.live p (pools i).alloc_size q ≡ 0
      idle' j q h = elim (Bool-cases (i == j)) [
        | inl f ↦
            let at : update b.frees i fl j ≡ fl = rw f refl in
            let h' : has q fl ≡ true = subst (λ x. has q x ≡ true) at h in
            let other : (p == q) ≡ false = ground (arith, c.2, h') in
            rw other (v.idle i q (inside q h'))
        | inr f ↦
            let at : update b.frees i fl j ≡ b.frees j = rw f refl in
            let h' : has q (b.frees j) ≡ true = subst (λ x. has q x ≡ true) at h in
            let out = v.alone i j p (λ z. ground (arith, z, f)) front in
            let other : (p == q) ≡ false = ground (arith, out, h') in rw other (v.idle j q h')
      ]
