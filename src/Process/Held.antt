-- ===== src/Process/Held.antt =====
-- A block's header and fences, where other memory changes.
use np_alloc.Prelude.{
  ℕ, ◌+◌, ◌^◌, ◌≤◌, ◌<◌, ◌≡◌, ◌≢◌, ◌⊎◌, ap, sym, ◌∙◌, List, Option, some, arith, inl, inr,
}
use np_alloc.Memory.{Memory, read64, read64-frame}
use np_alloc.LfStack.{Ptr}
use np_alloc.Mmap.{Mmap}
use np_alloc.TlsPsPool.{TlsPool}
use np_alloc.ThreadLocalPool.{whole_size, header_size}
use np_alloc.ThreadLocalPool.Checks.{InSize, InFence}
use np_alloc.Allocator.{Books, IsAllocator}
use np_alloc.Allocator.Layout.{IsBlock-inside, chunk_low}
use np_alloc.Process.{IsHeld}

-- In a memory where the header's size and the fences are what they were, for the same size of block.
pub IsHeld-Same :
    {sizes : List ℕ} {table : ℕ → Option ℕ} {max : ℕ} {m : Memory} {live : Ptr → ℕ} {h bytes : ℕ}
    (m' : Memory) (live' : Ptr → ℕ)
    → IsHeld sizes table max m live h bytes
    → live' h ≡ live h
    → ((y : ℕ) → InSize h y ⊎ InFence h bytes y → m' y ≡ m y)
    → IsHeld sizes table max m' live' h bytes
IsHeld-Same {sizes} {m} {h} {bytes} m' live' v e same = record {
  index = v.index;
  mapped = v.mapped;
  sized = v.sized ∙ ap some (sym e);
  fits = omega (arith, v.fits, e);
  small = v.small;
  header = at h (λ y lo hi. inl (lo, hi)) ∙ v.header;
  fences = (
    at (h + 32) (λ y lo hi. inr (omega arith)) ∙ v.fences.0,
    at (h + 32 + 8) (λ y lo hi. inr (omega arith)) ∙ v.fences.1,
    at (h + 48 + bytes) (λ y lo hi. inr (omega arith)) ∙ v.fences.2,
    at (h + 48 + bytes + 8) (λ y lo hi. inr (omega arith)) ∙ v.fences.3,
  );
}
  where
    at :
        (a : ℕ)
        → ((y : ℕ) → a ≤ y → y < a + 8 → InSize h y ⊎ InFence h bytes y)
        → read64 m' a ≡ read64 m a
    at a within = read64-frame m m' a (λ y lo hi. same y (within y lo hi))

-- All of its bytes are in the block.
pub IsHeld-whole :
    {sizes : List ℕ} {table : ℕ → Option ℕ} {max : ℕ} {m : Memory} {live : Ptr → ℕ} {h bytes : ℕ}
    (m' : Memory) (live' : Ptr → ℕ)
    → IsHeld sizes table max m live h bytes
    → live' h ≡ live h
    → ((y : ℕ) → h ≤ y → y < h + live h → m' y ≡ m y)
    → IsHeld sizes table max m' live' h bytes
IsHeld-whole {h} {bytes} m' live' v e same =
    IsHeld-Same m' live' v e (λ y within. same y (omega (arith, v.fits)) (omega (arith, v.fits)))

-- A block lies below the middle of the address space.
pub live_low :
    {m : Memory} {mm : Mmap} {pools : ℕ → TlsPool} {b : Books}
    → IsAllocator m mm pools b
    → (p : Ptr) → b.live p ≢ 0
    → p + b.live p < 2 ^ 63
live_low {b} v p h =
    let k = v.used p h in omega (arith, IsBlock-inside v (b.live p) p k, chunk_low v k.0 k.1)

pub whole_size_lem : (bytes : ℕ) → bytes + 64 < 2 ^ 64 → whole_size bytes ≡ bytes + 64
unfolding whole_size header_size
whole_size_lem bytes small = omega arith
