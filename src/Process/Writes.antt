-- ===== src/Process/Writes.antt =====
-- Writes to memory, and what they leave alone: the pools' part of the reservation and the blocks of
-- `malloc`.
use np_alloc.Prelude.{
  ℕ, ◌+◌, ◌*◌, ◌≤◌, ◌≡◌, ◌==◌, refl, ap, sym, subst, ◌∙◌, List, Option, some, arith, inl, inr,
  Bool-cases, ==_iff,
}
use np_alloc.Memory.{Memory}
use np_alloc.LfStack.{Ptr}
use np_alloc.Mmap.{Os}
use np_alloc.Mmap.Chunks.{mib}
use np_alloc.TlsPsPool.Blocks.{Apart}
use np_alloc.TlsPsPool.{TlsPool, World, with_memory}
use np_alloc.ThreadLocalPool.{ThreadPool, Heap, user_pointer, header_size}
use np_alloc.Allocator.{Books, IsAllocator}
use np_alloc.Allocator.Layout.{Same, Outside, IsBlock-inside, chunk_placed}
use np_alloc.Allocator.Moves.{written-IsAllocator}
use np_alloc.Allocator.Supply.{Commits}
use np_alloc.Process.{IsProcess}
use np_alloc.Process.Held.{IsHeld-Same, IsHeld-whole}
use np_alloc.Process.Allocate.{asked_live}
use np_alloc.Process.Large.{HeapLaws, IsLarge, IsLarge-Same, foreign-IsAllocator}
use np_alloc.Process.LargeCalls.{large_placed}

pub user-Apart :
    (h n base : ℕ) → Apart h (n + 64) base (4096 * mib) → Apart (user_pointer h) n base (4096 * mib)
unfolding user_pointer header_size
user-Apart h n base out = omega (arith, out)

pub user_pointer_injective : (p q : ℕ) → user_pointer p ≡ user_pointer q → p ≡ q
unfolding user_pointer header_size
user_pointer_injective p q e = omega (arith, e)

module _ (os : Os) (heap : Heap) (commits : Commits os) (base : ℕ) (laws : HeapLaws heap base)
    (sizes : List ℕ) (table : ℕ → Option ℕ) (max : ℕ) where
  -- A write to the bytes of one block.
  pub written-IsProcess :
      (w : World os) (threads : ℕ → ThreadPool) (asked : Ptr → Option ℕ) (pools : ℕ → TlsPool)
      (b : Books) (h bytes : ℕ) (m : Memory)
      → IsProcess os sizes table max w threads asked pools b
      → asked h ≡ some bytes
      → Same (user_pointer h) bytes w.memory m
      → IsProcess os sizes table max (with_memory w m) threads asked pools b
  unfolding user_pointer header_size
  written-IsProcess w threads asked pools b h bytes m v e same =
      let held = v.held h bytes e in
      let (v', others) =
        written-IsAllocator v.stands h m
          (asked_live os sizes table max w threads asked pools b v h bytes e)
          (λ y out. same y (omega (arith, held.fits))) in
      record {
        tabled = v.tabled;
        stands = v';
        thread = v.thread;
        unused = v.unused;
        held = λ q n e'. elim (Bool-cases (q == h)) [
          | inl y ↦
              let one : q ≡ h = (==_iff q h).0 y in
              let n' : bytes ≡ n = ground (arith, sym e ∙ ap asked (sym one) ∙ e') in
              IsHeld-Same m b.live (v.held q n e') refl
                (λ y within. same y (omega (arith, one, n')))
          | inr f ↦
              IsHeld-whole m b.live (v.held q n e') refl
                (λ y lo hi. others q y (λ z. ground (arith, z, f)) lo hi)
        ];
      }

  -- The program's bytes of a block of a pool lie in the reservation.
  pub in_reservation :
      (w : World os) (threads : ℕ → ThreadPool) (asked : Ptr → Option ℕ) (pools : ℕ → TlsPool)
      (b : Books) (h n : ℕ)
      → IsProcess os sizes table max w threads asked pools b
      → asked h ≡ some n
      → (w.global.ptr ≤ user_pointer h) × (user_pointer h + n ≤ w.global.ptr + 4096 * mib)
  unfolding user_pointer header_size
  in_reservation w threads asked pools b h n v e =
      let block = v.stands.used h (asked_live os sizes table max w threads asked pools b v h n e) in
      omega (
        arith,
        IsBlock-inside v.stands (b.live h) h block,
        chunk_placed v.stands block.0 block.1,
        (v.held h n e).fits,
      )

  -- A write of `n` bytes at `a`, outside the reservation.
  pub foreign-IsProcess :
      (w w' : World os) (threads : ℕ → ThreadPool) (asked : Ptr → Option ℕ) (pools : ℕ → TlsPool)
      (b : Books) (a n : ℕ)
      → IsProcess os sizes table max w threads asked pools b
      → w.global.ptr ≡ base
      → w'.global ≡ w.global
      → Apart a n base (4096 * mib)
      → Same a n w.memory w'.memory
      → IsProcess os sizes table max w' threads asked pools b
  foreign-IsProcess w w' threads asked pools b a n v at e out same = record {
    tabled = v.tabled;
    stands =
        subst (λ g. IsAllocator w'.memory g pools b) (sym e)
          (foreign-IsAllocator v.stands a n w'.memory (omega (arith, out, at)) same);
    thread = v.thread;
    unused = v.unused;
    held = λ h k f.
        let block =
          v.stands.used h (asked_live os sizes table max w threads asked pools b v h k f) in
        IsHeld-whole w'.memory b.live (v.held h k f) refl λ y lo hi. same y (
          omega (
            arith,
            out,
            at,
            IsBlock-inside v.stands (b.live h) h block,
            chunk_placed v.stands block.0 block.1,
          ));
  }

  -- What happens in the reservation does not reach the blocks of `malloc`.
  pub apart-IsLarge :
      (w w' : World os) (r : heap.State) (big : Ptr → Option ℕ) (l : Ptr → ℕ)
      → laws.Has r l
      → IsLarge max w.memory big l
      → w.global.ptr ≡ base
      → Outside w.global.ptr w.memory w'.memory
      → IsLarge max w'.memory big l
  apart-IsLarge w w' r big l has v at outside = IsLarge-Same w'.memory v λ h n y e within.
      outside y
        (omega (arith, within, at, large_placed os heap base max laws w r big l has v h n e))
