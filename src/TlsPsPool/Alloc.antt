-- ===== src/TlsPsPool/Alloc.antt =====
-- `alloc` from a chunk with room and from a new chunk.
use np_alloc.Prelude.{
  ℕ, ◌+◌, ◌-◌, ◌*◌, ◌/◌, ◌%◌, ◌^◌, ◌≤◌, ◌<◌, ◌≡◌, ◌≢◌, ◌==◌, inl, inr, refl, subst, ◌∙◌, Bool, true,
  false, List, ◌∷◌, arith, has, leb, ◌||◌, if◌then◌else◌, Bool-cases, dec_lt,
}
use native.Mathlib.Nat.{div-eq_of_lt}
use np_alloc.Memory.{Memory, read64, write64}
use np_alloc.LfStack.{Ptr, null, update}
use np_alloc.Mmap.{Os}
use np_alloc.Mmap.Chunks.{mib}
use np_alloc.TlsPsPool.{
  TlsPool, World, with_memory, sizeof_pool, pool_curr, get_free_count, get_alloc_end, carve,
}
use np_alloc.TlsPsPool.Blocks.{IsPool}
use np_alloc.TlsPsPool.Carve.{next_block, carved}
use np_alloc.TlsPsPool.Adopt.{IsFresh, headed, adopted}
use np_alloc.TlsPsPool.Moves.{Keeps}

count_zero :
    (f size : ℕ)
    → f / size ≡ 0
    → ((if (f == 0) || leb (2 ^ 63) f then 0 else f / size) == 0) ≡ false
    → ⊥
count_zero f size e s = elim (Bool-cases ((f == 0) || leb (2 ^ 63) f)) [
  | inl t ↦ ground (arith, t, s)
  | inr u ↦ ground (arith, u, s, e)
]

-- A chunk with room for a block has a count that is not zero, and only such a chunk.
pub count_room :
    (m : Memory) (t : TlsPool) (c k : ℕ)
    → t.chunk_size ≡ mib
    → t.head ≡ c
    → read64 m (pool_curr c) ≡ c + sizeof_pool + k * t.alloc_size
    → sizeof_pool + k * t.alloc_size ≤ mib
    → c + mib < 2 ^ 63
    → (get_free_count m t == 0) ≡ false
    → c + sizeof_pool + k * t.alloc_size + t.alloc_size ≤ c + mib
unfolding get_free_count get_alloc_end
count_room m t c k unit at curr fits high some =
    let left : ((t.head + t.chunk_size) % 2 ^ 64 + 2 ^ 64 - read64 m (pool_curr t.head)) % 2 ^ 64
        ≡ mib - (sizeof_pool + k * t.alloc_size) =
      rw (at, curr, unit) (omega (arith, high, fits)) in
    elim (dec_lt (mib - (sizeof_pool + k * t.alloc_size)) t.alloc_size) [
      | yes lt ↦
          let none : (mib - (sizeof_pool + k * t.alloc_size)) / t.alloc_size ≡ 0 =
            div-eq_of_lt lt in
          absurd (
            count_zero (mib - (sizeof_pool + k * t.alloc_size)) t.alloc_size none (
              subst (λ f. (if (f == 0) || leb (2 ^ 63) f then 0 else f / t.alloc_size) == 0 ≡ false)
                left some))
      | no ge ↦ omega (arith, fits)
    ]

pub get_free_count-room :
    (m : Memory) (t : TlsPool) (c : Ptr) (cs fl : List Ptr) (k : Ptr → ℕ) (live : Ptr → Bool)
    → IsPool m t (c ∷ cs) fl k live
    → (get_free_count m t == 0) ≡ false
    → next_block k t.alloc_size c + t.alloc_size ≤ c + mib
get_free_count-room m t c cs fl k live v some =
    let front : has c (c ∷ cs) ≡ true = ground arith in
    count_room m t c (k c) v.unit v.chunks.0 (v.laid.curr c front) (v.laid.fits c front)
      (v.laid.low c front).1 some

-- The number of blocks in use is no part of the layout.
pub recount :
    (m : Memory) (t : TlsPool) (cs fl : List Ptr) (k : Ptr → ℕ) (live : Ptr → Bool) (n : ℕ)
    → IsPool m t cs fl k live
    → IsPool m (record t { allocated = n }) cs fl k live
recount m t cs fl k live n v = record {
  laid = v.laid;
  unit = v.unit;
  chunks = v.chunks;
  frees = v.frees;
  free = v.free;
  used = v.used;
  apart = v.apart;
}

-- `alloc` needs a new chunk: the free list is empty, and so is the chunk at the head.
abbrev pub Starved : Memory → TlsPool → Type 0
Starved m t = ((t.free == null) ≡ true) × (((t.head == null) || (get_free_count m t == 0)) ≡ true)

module _ (os : Os) (ndebug : Bool) where
  -- The block `p` was not in use, the pool stays well formed with it in use, and the blocks that
  -- were in use keep their bytes.
  abbrev pub Serves : World os → TlsPool → (live : Ptr → Bool) → Ptr × World os × TlsPool → Type 0
  Serves w t live (p, w', t') =
      (live p ≡ false)
      × (p ≢ null)
      × (t'.alloc_size ≡ t.alloc_size)
      × ((cs : List Ptr) × (fl : List Ptr) × (k : Ptr → ℕ) × IsPool w'.memory t' cs fl k
            (update live p true))
      × Keeps live t.alloc_size w.memory w'.memory

  -- Of a chunk at the head with room.
  pub carve_at :
      (w : World os) (t : TlsPool) (c p : ℕ)
      → t.head ≡ c
      → read64 w.memory (pool_curr c) ≡ p
      → p + t.alloc_size < 2 ^ 64
      → carve os ndebug w t ≡ (p, with_memory w (write64 w.memory (pool_curr c) (p + t.alloc_size)))
  unfolding carve
  carve_at w t c p at curr small =
      let whole : (p + t.alloc_size) % 2 ^ 64 ≡ p + t.alloc_size = omega (arith, small) in
      rw (at, curr, whole) refl

  pub carve-Serves :
      (w : World os) (t : TlsPool) (c : Ptr) (cs fl : List Ptr) (k : Ptr → ℕ) (live : Ptr → Bool)
      (n : ℕ)
      → IsPool w.memory t (c ∷ cs) fl k live
      → next_block k t.alloc_size c + t.alloc_size ≤ c + mib
      → Serves w t live
          ((carve os ndebug w t).0, (carve os ndebug w t).1, record t { allocated = n })
  carve-Serves w t c cs fl k live n v room =
      let front : has c (c ∷ cs) ≡ true = ground arith in
      let at =
        carve_at w t c (next_block k t.alloc_size c) v.chunks.0 (v.laid.curr c front)
          (omega (arith, v.laid.low c front, room)) in
      let (pool, keeps, new, some) = carved v room in
      rw at
        (new, some, refl, (c ∷ cs, fl, update k c (k c + 1), recount _ t _ fl _ _ n pool), keeps)

  -- With a new chunk `d` from the global pool.
  pub fresh_Serves :
      (w : World os) (t : TlsPool) (cs fl : List Ptr) (k : Ptr → ℕ) (live : Ptr → Bool) (n : ℕ)
      (d : Ptr) (w' : World os)
      → IsPool w.memory t cs fl k live
      → IsFresh cs d
      → sizeof_pool + t.alloc_size ≤ mib
      → w'.memory ≡ headed w.memory d t.head
      → Serves w t live (
        (carve os ndebug w' (record t { head = d })).0,
        (carve os ndebug w' (record t { head = d })).1,
        record t { head = d; allocated = n },
      )
  fresh_Serves w t cs fl k live n d w' v f fits e =
      let (pool, keeps) = adopted v d f in
      let pool' : IsPool w'.memory (record t { head = d }) (d ∷ cs) fl (update k d 0) live =
        rw e pool in
      let none : update k d 0 d ≡ 0 = ground arith in
      let (new, some, same, laid, keeps') =
        carve-Serves w' (record t { head = d }) d cs fl (update k d 0) live n pool'
          (rw none (omega arith)) in
      (new, some, refl, laid, λ q x h lo hi. keeps' q x h lo hi ∙ rw e (keeps q x h lo hi))
