-- ===== src/TlsPsPool/Adopt.antt =====
-- `alloc_from_global`: a new chunk joins the pool.
use np_alloc.Prelude.{
  ℕ, ◌+◌, ◌*◌, ◌^◌, ◌<◌, ◌≡◌, ◌≢◌, ◌==◌, inl, inr, refl, ◌∙◌, Bool, true, false, List, ◌∷◌, arith,
  has, Bool-cases, ==_iff,
}
use np_alloc.Memory.{Memory, read64, write64, read64-write64, read64-write64_apart, write64-frame}
use np_alloc.LfStack.{Ptr, null, update}
use np_alloc.LfStack.Chain.{Chain, Chain-head}
use np_alloc.Mmap.Chunks.{mib}
use np_alloc.TlsPsPool.{TlsPool, sizeof_pool, pool_curr}
use np_alloc.TlsPsPool.Blocks.{Block, Apart, IsLaid, IsPool, Block-inside}
use np_alloc.TlsPsPool.Moves.{Keeps, Chain-write64}

-- The chunk `d` is none of `cs`, and lies in the lower half of the address space.
pub record IsFresh (cs : List Ptr) (d : Ptr) : Type 0 where
  pub other : has d cs ≡ false
  pub far : (c : Ptr) → has c cs ≡ true → Apart c mib d mib
  pub low : 0 < d
  pub high : d + mib < 2 ^ 63

-- The two fields of the new chunk's header.
abbrev pub headed : Memory → Ptr → Ptr → Memory
headed m d next = write64 (write64 m (pool_curr d) (d + sizeof_pool)) d next

module _ {m : Memory} {t : TlsPool} {cs fl : List Ptr} {k : Ptr → ℕ} {live : Ptr → Bool}
    (v : IsPool m t cs fl k live) (d : Ptr) (f : IsFresh cs d) where
  abbrev size : ℕ
  size = t.alloc_size

  abbrev k' : Ptr → ℕ
  k' = update k d 0

  abbrev m₁ : Memory
  m₁ = write64 m (pool_curr d) (d + sizeof_pool)

  old : (c : Ptr) → has c cs ≡ true → (k' c ≡ k c) × (c ≢ d)
  old c h = elim (Bool-cases (d == c)) [
    | inl e ↦ ground (arith, f.other)
    | inr e ↦ (ground arith, λ z. ground arith)
  ]

  grow : (q : Ptr) → Block cs k size q → Block (d ∷ cs) k' size q
  grow q (c, h, j, lt, e) = (c, ground arith, j, rw ((old c h).0) lt, e)

  out : (q : Ptr) → Block cs k size q → Apart q size d mib
  out q (c, h, j, lt, e) = omega (arith, Block-inside v.laid q c j h lt e, f.far c h)

  links : (c : Ptr) → has c cs ≡ true → (Apart c 8 (pool_curr d) 8) × (Apart c 8 d 8)
  links c h = (omega (arith, f.far c h), omega (arith, f.far c h))

  blocks : (q : Ptr) → has q fl ≡ true → (Apart q 8 (pool_curr d) 8) × (Apart q 8 d 8)
  blocks q h =
      let o = out q (v.free q h) in (omega (arith, o, v.laid.wide), omega (arith, o, v.laid.wide))

  chain :
      (l : List Ptr) (p : Ptr)
      → ((q : Ptr) → has q l ≡ true → (Apart q 8 (pool_curr d) 8) × (Apart q 8 d 8))
      → Chain (read64 m) p l
      → Chain (read64 (headed m d t.head)) p l
  chain l p o c =
      Chain-write64 m₁ l p d t.head (λ q h. (o q h).1)
        (Chain-write64 m l p (pool_curr d) (d + sizeof_pool) (λ q h. (o q h).0) c)

  head_small : t.head < 2 ^ 64
  head_small = elim (Bool-cases (t.head == null)) [
    | inl z ↦ ground arith
    | inr some ↦
        omega
          (arith, v.laid.low t.head (Chain-head (read64 m) t.head cs v.chunks (λ z. ground arith)))
  ]

  currs :
      (c : Ptr)
      → has c (d ∷ cs) ≡ true
      → read64 (headed m d t.head) (pool_curr c) ≡ c + sizeof_pool + k' c * size
  currs c h = elim (Bool-cases (d == c)) [
    | inl e ↦
        let none : k' c ≡ 0 = ground arith in
        rw (none, ← (==_iff d c).0 e)
          (read64-write64_apart m₁ (pool_curr d) d t.head (omega arith)
            ∙ read64-write64 m (pool_curr d) (d + sizeof_pool) (omega (arith, f.high))
            ∙ omega arith)
    | inr e ↦
        let h' : has c cs ≡ true = ground arith in
        rw ((old c h').0) (
          read64-write64_apart m₁ (pool_curr c) d t.head (omega (arith, f.far c h'))
          ∙ read64-write64_apart m (pool_curr c) (pool_curr d) (d + sizeof_pool)
              (omega (arith, f.far c h'))
          ∙ v.laid.curr c h')
  ]

  fars : (a b : Ptr) → has a (d ∷ cs) ≡ true → has b (d ∷ cs) ≡ true → a ≢ b → Apart a mib b mib
  fars a b h i ne = elim (Bool-cases (d == a)) [
    | inl e ↦
        let z : d ≡ a = (==_iff d a).0 e in
        let other : has b cs ≡ true = ground arith in omega (arith, f.far b other)
    | inr e ↦ elim (Bool-cases (d == b)) [
      | inl e' ↦
          let z : d ≡ b = (==_iff d b).0 e' in
          let other : has a cs ≡ true = ground arith in omega (arith, f.far a other)
      | inr e' ↦ v.laid.far a b (ground arith) (ground arith) ne
    ]
  ]

  laid : IsLaid (headed m d t.head) (d ∷ cs) k' size
  laid = record {
    wide = v.laid.wide;
    far = fars;
    low = λ c h. elim (Bool-cases (d == c)) [
      | inl e ↦ let z : d ≡ c = (==_iff d c).0 e in omega (arith, f.low, f.high)
      | inr e ↦ v.laid.low c (ground arith)
    ];
    curr = currs;
    fits = λ c h. elim (Bool-cases (d == c)) [
      | inl e ↦ let none : k' c ≡ 0 = ground arith in rw none (omega arith)
      | inr e ↦ let h' : has c cs ≡ true = ground arith in rw ((old c h').0) (v.laid.fits c h')
    ];
  }

  pub adopted :
      IsPool (headed m d t.head) (record t { head = d }) (d ∷ cs) fl k' live
      × Keeps live size m (headed m d t.head)
  adopted = (
    record {
      laid = laid;
      unit = v.unit;
      chunks = (
        refl,
        (λ z. omega (arith, f.low)),
        f.other,
        rw (read64-write64 m₁ d t.head head_small) (chain cs t.head links v.chunks),
      );
      frees = chain fl t.free blocks v.frees;
      free = λ q h. grow q (v.free q h);
      used = λ q h. grow q (v.used q h);
      apart = v.apart;
    },
    λ q x h lo hi.
        let o = out q (v.used q h) in
        write64-frame m₁ d t.head x (omega (arith, o))
        ∙ write64-frame m (pool_curr d) (d + sizeof_pool) x (omega (arith, o)),
  )
