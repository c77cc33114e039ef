-- ===== src/TlsPsPool/Carve.antt =====
-- One more block from the chunk at the head.
use np_alloc.Prelude.{
  ℕ, ◌+◌, ◌*◌, ◌≤◌, ◌≡◌, ◌≢◌, ◌==◌, inl, inr, refl, subst, ◌∙◌, Bool, true, false, List, ◌∷◌, arith,
  has, Bool-cases, ==_iff,
}
use np_alloc.Memory.{Memory, read64, write64, read64-write64, read64-write64_apart, write64-frame}
use np_alloc.LfStack.{Ptr, null, update}
use np_alloc.Mmap.Chunks.{mib}
use np_alloc.TlsPsPool.{TlsPool, sizeof_pool, pool_curr}
use np_alloc.TlsPsPool.Blocks.{Block, Apart, IsLaid, IsPool, Block-header, next-not-Block}
use np_alloc.TlsPsPool.Moves.{Keeps, Chain-write64}

-- The block that is carved next from the chunk `c`.
abbrev pub next_block : (Ptr → ℕ) → ℕ → Ptr → ℕ
next_block k size c = c + sizeof_pool + k c * size

module _ {m : Memory} {t : TlsPool} {c : Ptr} {cs fl : List Ptr} {k : Ptr → ℕ} {live : Ptr → Bool}
    (v : IsPool m t (c ∷ cs) fl k live)
    (room : next_block k t.alloc_size c + t.alloc_size ≤ c + mib) where
  abbrev size : ℕ
  size = t.alloc_size

  abbrev p : ℕ
  p = next_block k t.alloc_size c

  abbrev k' : Ptr → ℕ
  k' = update k c (k c + 1)

  in_front : has c (c ∷ cs) ≡ true
  in_front = ground arith

  bump : k' c * size ≡ k c * size + size
  bump = let e : k' c ≡ k c + 1 = ground arith in rw e (omega arith)

  grow : (q : Ptr) → Block (c ∷ cs) k size q → Block (c ∷ cs) k' size q
  grow q (d, h, j, lt, e) = (d, h, j, ground arith, e)

  block : Block (c ∷ cs) k' size p
  block = (c, in_front, k c, ground arith, refl)

  -- The field `pool_curr` of the chunk at the head is apart from every block and every link.
  spared : (q : Ptr) → Block (c ∷ cs) k size q → Apart q size (pool_curr c) 8
  spared q b = omega (arith, Block-header v.laid q b c in_front)

  links : (d : Ptr) → has d (c ∷ cs) ≡ true → Apart d 8 (pool_curr c) 8
  links d h = elim (Bool-cases (c == d)) [
    | inl e ↦ ground arith
    | inr e ↦ omega (arith, v.laid.far c d in_front h (λ z. ground arith))
  ]

  abbrev m' : Memory
  m' = write64 m (pool_curr c) (p + size)

  currs :
      (d : Ptr) → has d (c ∷ cs) ≡ true → read64 m' (pool_curr d) ≡ d + sizeof_pool + k' d * size
  currs d h = elim (Bool-cases (c == d)) [
    | inl e ↦ rw (← (==_iff c d).0 e) (
        read64-write64 m (pool_curr c) (p + size) (omega (arith, v.laid.low c in_front))
        ∙ omega (arith, bump))
    | inr e ↦
        let other : k' d ≡ k d = ground arith in
        rw other (
          read64-write64_apart m (pool_curr d) (pool_curr c) (p + size)
            (omega (arith, v.laid.far c d in_front h (λ z. ground arith)))
          ∙ v.laid.curr d h)
  ]

  laid : IsLaid m' (c ∷ cs) k' size
  laid = record {
    wide = v.laid.wide;
    far = v.laid.far;
    low = v.laid.low;
    curr = currs;
    fits = λ d h. elim (Bool-cases (c == d)) [
      | inl e ↦ rw (← (==_iff c d).0 e) (omega (arith, bump))
      | inr e ↦ let other : k' d ≡ k d = ground arith in rw other (v.laid.fits d h)
    ];
  }

  fresh : (q : Ptr) → Block (c ∷ cs) k size q → q ≢ p
  fresh q b e =
      next-not-Block v.laid p c in_front refl room (subst (λ x. Block (c ∷ cs) k size x) e b)

  -- One more block of the chunk at the head.
  pub carved :
      IsPool m' t (c ∷ cs) fl k' (update live p true)
      × Keeps live size m m'
      × (live p ≡ false)
      × (p ≢ null)
  carved = (
    record {
      laid = laid;
      unit = v.unit;
      chunks = Chain-write64 m (c ∷ cs) t.head (pool_curr c) (p + size) links v.chunks;
      frees =
          Chain-write64 m fl t.free (pool_curr c) (p + size)
            (λ q h. omega (arith, spared q (v.free q h), v.laid.wide)) v.frees;
      free = λ q h. grow q (v.free q h);
      used = λ q h. elim (Bool-cases (p == q)) [
        | inl e ↦ rw (← (==_iff p q).0 e) block
        | inr e ↦ grow q (v.used q (ground arith))
      ];
      apart = λ q h. elim (Bool-cases (p == q)) [
        | inl e ↦ elim (Bool-cases (has q fl)) [
          | inl t ↦ absurd (fresh q (v.free q t) (ground arith))
          | inr f ↦ f
        ]
        | inr e ↦ v.apart q (ground arith)
      ];
    },
    λ q x h lo hi.
        write64-frame m (pool_curr c) (p + size) x (omega (arith, spared q (v.used q h))),
    elim (Bool-cases (live p)) [ inl t ↦ absurd (fresh p (v.used p t) refl) | inr f ↦ f ],
    λ z. omega (arith, v.laid.low c in_front),
  )
