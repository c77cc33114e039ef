-- ===== src/Allocator/Moves.antt =====
-- What `dealloc`, `alloc` from the free list, and the program's own writes do to the books.
use np_alloc.Prelude.{
  ℕ, ◌+◌, ◌^◌, ◌≤◌, ◌<◌, ◌≡◌, ◌≢◌, ◌==◌, refl, sym, subst, ◌∙◌, true, false, List, ◌∷◌, has, arith,
  inl, inr, Bool-cases, ==_iff,
}
use np_alloc.Memory.{Memory, read64, write64, read64-write64, write64-frame}
use np_alloc.LfStack.{Ptr, null, update}
use np_alloc.LfStack.Chain.{Chain-head}
use np_alloc.Mmap.{Mmap}
use np_alloc.TlsPsPool.{TlsPool}
use np_alloc.Allocator.{IsBlock, IsLocal, Books, IsAllocator}
use np_alloc.Allocator.Layout.{
  IsSpared, Same, IsBlock-inside, blocks-Apart, block-header, block-IsSpared, chunk_low,
  global-Same, chunks-Same, frees-Same, IsLocal-Same, IsAllocator-Same,
}

-- A property of every pool, where one of them and its lists have changed.
pub update_all :
    (P : TlsPool → List Ptr → List Ptr → Type 0)
    → (pools : ℕ → TlsPool) (chunks frees : ℕ → List Ptr) (i : ℕ) (t : TlsPool) (cs fl : List Ptr)
    → P t cs fl
    → ((j : ℕ) → P (pools j) (chunks j) (frees j))
    → (j : ℕ) → P (update pools i t j) (update chunks i cs j) (update frees i fl j)
update_all P pools chunks frees i t cs fl new old j = elim (Bool-cases (i == j)) [
  | inl e ↦ rw e new
  | inr e ↦ rw e (old j)
]

-- No element in the lists of two pools, where one list has changed.
pub update_disjoint :
    (lists : ℕ → List Ptr) (i : ℕ) (l : List Ptr)
    → ((j k : ℕ) (p : Ptr) → j ≢ k → has p (lists j) ≡ true → has p (lists k) ≡ false)
    → ((k : ℕ) (p : Ptr) → i ≢ k → has p l ≡ true → has p (lists k) ≡ false)
    → (j k : ℕ) (p : Ptr) → j ≢ k
    → has p (update lists i l j) ≡ true
    → has p (update lists i l k) ≡ false
update_disjoint lists i l old new j k p ne h = elim (Bool-cases (i == j)) [
  | inl e ↦
      let one : i ≡ j = (==_iff i j).0 e in
      let other : (i == k) ≡ false = ground (arith, one, ne) in
      let h' : has p l ≡ true = subst (λ x. has p x ≡ true) (rw e refl) h in
      rw other (new k p (λ z. ne (sym one ∙ z)) h')
  | inr e ↦
      let h' : has p (lists j) ≡ true = subst (λ x. has p x ≡ true) (rw e refl) h in
      elim (Bool-cases (i == k)) [
        | inl e' ↦
            let one : i ≡ k = (==_iff i k).0 e' in
            rw e' (elim (Bool-cases (has p l)) [
              | inl t ↦ absurd (ground (arith, new j p (λ z. ground (arith, z, e)) t, h'))
              | inr f ↦ f
            ])
        | inr e' ↦ rw e' (old j k p ne h')
      ]
]

-- The bytes of the blocks in use stay what they are.
abbrev pub KeepsLive : Books → Memory → Memory → Type 0
KeepsLive b m m' = (q y : ℕ) → q ≤ y → y < q + b.live q → m' y ≡ m y

module _ {m : Memory} {mm : Mmap} {pools : ℕ → TlsPool} {b : Books}
    (v : IsAllocator m mm pools b) where
  pub block-ne_null : (s p : ℕ) → IsBlock b.shape s p → p ≢ null
  block-ne_null s p k z = omega (arith, IsBlock-inside v s p k)

  pub live-IsBlock : (q y : ℕ) → q ≤ y → y < q + b.live q → IsBlock b.shape (b.live q) q
  live-IsBlock q y lo hi = v.used q (λ z. absurd (omega (arith, z)))

  pub not_free : (p : Ptr) → b.live p ≢ 0 → (i : ℕ) → has p (b.frees i) ≡ false
  not_free p h i = elim (Bool-cases (has p (b.frees i))) [
    | inl t ↦ absurd (h (v.idle i p t))
    | inr f ↦ f
  ]

  -- The program writes to a block that it uses, as it likes.
  pub written-IsAllocator :
      (p : Ptr) (m' : Memory)
      → b.live p ≢ 0
      → Same p (b.live p) m m'
      → IsAllocator m' mm pools b × ((q y : ℕ) → q ≢ p → q ≤ y → y < q + b.live q → m' y ≡ m y)
  written-IsAllocator p m' h same = (
    IsAllocator-Same v p (b.live p) m'
        (block-IsSpared v (b.live p) p (b.live p) (v.used p h) (omega arith) (not_free p h)) same
        (λ c g. omega (arith, block-header v (b.live p) p (v.used p h) c g)),
    λ q y ne lo hi. same y (
        omega (
          arith,
          blocks-Apart v (b.live q) (b.live p) q p (live-IsBlock q y lo hi) (v.used p h) ne,
        )),
  )

  free_small : (i : ℕ) → (pools i).free < 2 ^ 64
  free_small i = elim (Bool-cases ((pools i).free == null)) [
    | inl z ↦ ground arith
    | inr some ↦
        let k = (v.local i).free (pools i).free (
          Chain-head (read64 m) (pools i).free (b.frees i) (v.local i).frees (λ z. ground arith)) in
        omega (arith, IsBlock-inside v (pools i).alloc_size (pools i).free k, chunk_low v k.0 k.1)
  ]

  -- The block `p` goes to the free list of pool `i`, of the same size.
  abbrev pub put : (i : ℕ) (p : Ptr) → Books
  put i p = record b {
    chunks = update b.chunks i (b.chunks i);
    frees = update b.frees i (p ∷ b.frees i);
    live = update b.live p 0;
  }

  pub put-IsAllocator :
      (i : ℕ) (p : Ptr) (n : ℕ)
      → b.live p ≡ (pools i).alloc_size
      → IsAllocator
          (write64 m p (pools i).free)
          mm
          (update pools i (record (pools i) { allocated = n; free = p }))
          (put i p)
        × KeepsLive (put i p) m (write64 m p (pools i).free)
  put-IsAllocator i p n size = (
    record {
      global = global-Same v p 8 m' spared same;
      high = v.high;
      wide = v.wide;
      curr =
          (IsAllocator-Same v p 8 m' spared same
            (λ c h. omega (arith, block-header v (b.live p) p block c h, wide))).curr;
      fits = v.fits;
      local =
          update_all (IsLocal m' b.shape) pools b.chunks b.frees i
            (record (pools i) { allocated = n; free = p }) (b.chunks i) (p ∷ b.frees i) changed
            (IsLocal-Same v p 8 m' spared same);
      own = update_disjoint b.chunks i (b.chunks i) v.own (λ k q ne h. v.own i k q ne h);
      alone = update_disjoint b.frees i (p ∷ b.frees i) v.alone alone';
      used = λ q h. subst (λ x. IsBlock b.shape x q) (sym (still q h).0) (v.used q (still q h).1);
      idle = idle';
    },
    λ q y lo hi.
        let st = still q (λ z. absurd (omega (arith, z))) in
        same y (
          omega (
            arith,
            blocks-Apart v (b.live q) (b.live p) q p (v.used q st.1) block st.2,
            wide,
            st.0,
          )),
  )
    where
      m' : Memory
      m' = write64 m p (pools i).free

      some : b.live p ≢ 0
      some z = absurd (omega (arith, (v.local i).wide, size, z))

      block : IsBlock b.shape (b.live p) p
      block = v.used p some

      wide : 8 ≤ b.live p
      wide = omega (arith, (v.local i).wide, size)

      spared : IsSpared b p 8
      spared = block-IsSpared v (b.live p) p 8 block wide (not_free p some)

      same : Same p 8 m m'
      same y out = write64-frame m p (pools i).free y out

      still :
          (q : Ptr)
          → update b.live p 0 q ≢ 0
          → (update b.live p 0 q ≡ b.live q) × (b.live q ≢ 0) × (q ≢ p)
      still q h = elim (Bool-cases (p == q)) [
        | inl e ↦ absurd (h (rw e refl))
        | inr e ↦ (rw e refl, subst (λ x. x ≢ 0) (rw e refl) h, λ z. ground (arith, z, e))
      ]

      changed :
          IsLocal m' b.shape
            (record (pools i) { allocated = n; free = p })
            (b.chunks i)
            (p ∷ b.frees i)
      changed = record {
        unit = (v.local i).unit;
        wide = (v.local i).wide;
        fit = (v.local i).fit;
        chunks = chunks-Same v p 8 m' spared same i;
        frees = (
          refl,
          block-ne_null (b.live p) p block,
          not_free p some i,
          rw (read64-write64 m p (pools i).free (free_small i)) (frees-Same v p 8 m' spared same i),
        );
        mine = (v.local i).mine;
        free = λ q h. elim (Bool-cases (q == p)) [
          | inl e ↦ rw ((==_iff q p).0 e) (subst (λ x. IsBlock b.shape x p) size block)
          | inr e ↦ (v.local i).free q (ground arith)
        ];
      }

      alone' : (k : ℕ) (q : Ptr) → i ≢ k → has q (p ∷ b.frees i) ≡ true → has q (b.frees k) ≡ false
      alone' k q ne h = elim (Bool-cases (q == p)) [
        | inl e ↦ rw ((==_iff q p).0 e) (not_free p some k)
        | inr e ↦ v.alone i k q ne (ground arith)
      ]

      idle' :
          (j : ℕ) (q : Ptr)
          → has q (update b.frees i (p ∷ b.frees i) j) ≡ true
          → update b.live p 0 q ≡ 0
      idle' j q h = elim (Bool-cases (p == q)) [
        | inl e ↦ rw e refl
        | inr e ↦ rw e (elim (Bool-cases (i == j)) [
          | inl f ↦
              let at : update b.frees i (p ∷ b.frees i) j ≡ p ∷ b.frees i = rw f refl in
              let h' : has q (p ∷ b.frees i) ≡ true = subst (λ x. has q x ≡ true) at h in
              v.idle i q (ground (arith, h', e))
          | inr f ↦
              let at : update b.frees i (p ∷ b.frees i) j ≡ b.frees j = rw f refl in
              v.idle j q (subst (λ x. has q x ≡ true) at h)
        ])
      ]
