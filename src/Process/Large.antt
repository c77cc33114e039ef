-- ===== src/Process/Large.antt =====
-- The sizes that `malloc` and `free` serve, next to the pools.
use np_alloc.Prelude.{
  ℕ, ◌+◌, ◌*◌, ◌^◌, ◌≤◌, ◌<◌, ◌≡◌, ◌≢◌, ◌⊎◌, ◌∙◌, Option, none, some, arith, inl, inr,
}
use np_alloc.Memory.{Memory, read64, read64-frame}
use np_alloc.LfStack.{Ptr, null, update}
use np_alloc.Mmap.{Mmap}
use np_alloc.Mmap.Chunks.{mib}
use np_alloc.TlsPsPool.{TlsPool}
use np_alloc.TlsPsPool.Blocks.{Apart}
use np_alloc.ThreadLocalPool.{Heap}
use np_alloc.ThreadLocalPool.Checks.{Fenced, InSize, InFence}
use np_alloc.Allocator.{Books, IsAllocator}
use np_alloc.Allocator.Layout.{Same, IsBlock-inside, chunk_placed, IsAllocator-Same}

-- What is taken for granted of `malloc` and `free`: a way to tell which blocks a state of the heap
-- has, with 0 for none, such that a block that `malloc` returns is a new one, `free` takes one away,
-- and no block overlaps another, or the 4 GB at `base` that `mmap` has mapped, or wraps around the
-- end of the address space.
pub record HeapLaws (heap : Heap) (base : ℕ) : Type 1 where
  pub Has : heap.State → (Ptr → ℕ) → Type 0
  pub malloc_null :
      (s : heap.State) (l : Ptr → ℕ) (n : ℕ)
      → Has s l
      → (heap.malloc s n).0 ≡ null
      → Has (heap.malloc s n).1 l
  pub malloc_new :
      (s : heap.State) (l : Ptr → ℕ) (n : ℕ)
      → Has s l
      → 0 < n
      → (heap.malloc s n).0 ≢ null
      → (l (heap.malloc s n).0 ≡ 0) × Has (heap.malloc s n).1 (update l (heap.malloc s n).0 n)
  pub freed :
      (s : heap.State) (l : Ptr → ℕ) (p : Ptr)
      → Has s l
      → l p ≢ 0
      → Has (heap.free s p) (update l p 0)
  pub apart :
      (s : heap.State) (l : Ptr → ℕ) (p q : Ptr)
      → Has s l
      → l p ≢ 0
      → l q ≢ 0
      → p ≢ q
      → Apart p (l p) q (l q)
  pub outside :
      (s : heap.State) (l : Ptr → ℕ) (p : Ptr) → Has s l → l p ≢ 0 → Apart p (l p) base (4096 * mib)
  pub low : (s : heap.State) (l : Ptr → ℕ) (p : Ptr) → Has s l → l p ≢ 0 → p + l p < 2 ^ 64

-- The blocks of the heap with the program's bytes, more than the largest pool has.
pub record IsLarge (max : ℕ) (m : Memory) (big : Ptr → Option ℕ) (l : Ptr → ℕ) : Type 0 where
  pub unused : (h : Ptr) → big h ≡ none → l h ≡ 0
  pub held :
      (h n : ℕ) → big h ≡ some n → (l h ≡ n + 64) × (max < n + 64) × (read64 m h ≡ n) × Fenced m h n

-- A write of `n` bytes at `a`, outside the reservation.
pub foreign-IsAllocator :
    {m : Memory} {mm : Mmap} {pools : ℕ → TlsPool} {b : Books}
    → IsAllocator m mm pools b
    → (a n : ℕ) (m' : Memory) → Apart a n mm.ptr (4096 * mib)
    → Same a n m m'
    → IsAllocator m' mm pools b
foreign-IsAllocator {mm} {pools} v a n m' out same =
    IsAllocator-Same v a n m'
      (record {
        heads = λ c h. omega (arith, out, chunk_placed v c h);
        waits = λ c h. let (i, lt, e) = v.global.free c h in omega (arith, out, v.global.few);
        blocks = λ i p h.
            let k = (v.local i).free p h in
            omega (arith, out, IsBlock-inside v (pools i).alloc_size p k, chunk_placed v k.0 k.1);
      })
      same (λ c h. omega (arith, out, chunk_placed v c h))

pub IsLarge-Same :
    {max : ℕ} {m : Memory} {big : Ptr → Option ℕ} {l : Ptr → ℕ} (m' : Memory)
    → IsLarge max m big l
    → ((h n y : ℕ) → big h ≡ some n → InSize h y ⊎ InFence h n y → m' y ≡ m y)
    → IsLarge max m' big l
IsLarge-Same {m} m' v same = record {
  unused = v.unused;
  held = λ h n e.
      let (sized, above, header, fences) = v.held h n e in
      let at : (a : ℕ)
          → ((y : ℕ) → a ≤ y → y < a + 8 → InSize h y ⊎ InFence h n y)
          → read64 m' a ≡ read64 m a =
        λ a within. read64-frame m m' a (λ y lo hi. same h n y e (within y lo hi)) in
      (
        sized,
        above,
        at h (λ y lo hi. inl (lo, hi)) ∙ header,
        (
          at (h + 32) (λ y lo hi. inr (omega arith)) ∙ fences.0,
          at (h + 32 + 8) (λ y lo hi. inr (omega arith)) ∙ fences.1,
          at (h + 48 + n) (λ y lo hi. inr (omega arith)) ∙ fences.2,
          at (h + 48 + n + 8) (λ y lo hi. inr (omega arith)) ∙ fences.3,
        ),
      );
}
