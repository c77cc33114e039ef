-- ===== src/Examples/Pools.antt =====
-- The pools of src/np_alloc.cpp over the operating system of the tests.
use np_alloc.Prelude.{
  ℕ, List, ◌+◌, ◌*◌, ◌%◌, ◌^◌, ◌<◌, ◌≤◌, ◌≡◌, ◌≢◌, ◌==◌, refl, Bool, false, [], ◌∷◌, none, some,
  arith, inr, get_elem?, if◌then◌else◌, ◌∙◌,
}
use np_alloc.Memory.{
  Memory, read, write, read64, write64, write16, read64-write64, read64-write64_apart, IsBytes,
}
use np_alloc.LfStack.{Ptr, null, update}
use np_alloc.Mmap.{create, ok, aborted, fault}
use np_alloc.Mmap
use np_alloc.Mmap.Chunks.{mib}
use np_alloc.Mmap.Alloc.{alloc_chunk-new}
use np_alloc.Mmap.Reserve.{reserved-IsPool}
use np_alloc.GlobalPool.{GlobalPool}
use np_alloc.GlobalPool
use np_alloc.TlsPsPool.{TlsPool, World, alloc, dealloc, sizeof_pool, pool_curr}
use np_alloc.TlsPsPool.Blocks.{IsLaid, IsPool}
use np_alloc.TlsPsPool.Moves.{Keeps}
use np_alloc.TlsPsPool.Adopt.{IsFresh}
use np_alloc.TlsPsPool.Alloc.{Serves}
use np_alloc.TlsPsPool.Serve.{Supplies, alloc-Serves, dealloc-IsPool}
use np_alloc.ThreadLocalPool.{
  Heap, ThreadPool, stamp, check_fences, user_pointer, whole_size, init, create_pools, map_pools,
  map_pool, max_size, free_block,
}
use np_alloc.ThreadLocalPool
use np_alloc.ThreadLocalPool.Mapping.{init-first_fit}
use np_alloc.ThreadLocalPool.Align.{user_pointer-Block}
use np_alloc.ThreadLocalPool.Checks.{stamp-IsBytes, overrun_detected, dealloc-stamp}
use np_alloc.Examples.Chunks.{os, place}

-- A thread's first call: the pool has no chunk.
abbrev pub first_world : World os
first_world = record { memory = λ x. 0; global = place mib; system = tt }

abbrev first_pool : TlsPool
first_pool = record { head = 0; free = 0; alloc_size = 128; chunk_size = mib; allocated = 0 }

first-IsPool : IsPool (λ x. 0) first_pool [] [] (λ p. 0) (λ p. false)
first-IsPool = record {
  laid = record {
    wide = omega arith;
    far = λ c d h. absurd (ground arith);
    low = λ c h. absurd (ground arith);
    curr = λ c h. absurd (ground arith);
    fits = λ c h. absurd (ground arith);
  };
  unit = refl;
  chunks = refl;
  frees = refl;
  free = λ p h. absurd (ground arith);
  used = λ p h. absurd (ground arith);
  apart = λ p h. refl;
}

supplied :
    (d : Ptr) × (g : GlobalPool) × (s : os.State) × Supplies os false first_world d g s
    × IsFresh [] d
unfolding GlobalPool.alloc_chunk Mmap.virtual_alloc
supplied =
    let (g, e, pool, new) =
      alloc_chunk-new (reserved-IsPool (λ x. 0) 4096 (2 ^ 32) mib (omega arith) (omega arith)) os
        false tt tt refl (omega arith) refl in
    (
      2 ^ 32,
      g,
      tt,
      e,
      record {
        other = refl;
        far = λ c h. absurd (ground arith);
        low = omega arith;
        high = omega arith;
      },
    )

unit_size : GlobalPool.get_chunk_size (place mib) ≡ mib
unfolding GlobalPool.get_chunk_size create
unit_size = refl

alloc-Serves_example :
    (r : Ptr × World os × TlsPool) × (alloc os false first_world first_pool ≡ ok r)
    × Serves os false first_world first_pool (λ p. false) r
alloc-Serves_example =
    alloc-Serves os false first_world first_pool [] [] (λ p. 0) (λ p. false) first-IsPool
      (omega arith) unit_size (λ starved. supplied)

-- One chunk with `n` blocks of 128 bytes.
abbrev base : Ptr
base = 2 ^ 32

abbrev blocks : ℕ → Memory
blocks n = write64 (λ x. 0) (pool_curr base) (base + 16 + n * 128)

blocks-IsLaid : (n : ℕ) → n ≤ 8000 → IsLaid (blocks n) (base ∷ []) (update (λ c. 0) base n) 128
blocks-IsLaid n few = record {
  wide = omega arith;
  far = λ c d h i ne. absurd (ne (ground arith));
  low = λ c h. ground arith;
  curr = λ c h. currs c (ground arith);
  fits = λ c h. let all : update (λ c. 0) base n c ≡ n = ground arith in rw all (omega arith);
}
  where
    currs :
        (c : Ptr)
        → base ≡ c
        → read64 (blocks n) (pool_curr c) ≡ c + sizeof_pool + update (λ c. 0) base n c * 128
    currs c e =
        let all : update (λ c. 0) base n c ≡ n = ground arith in
        rw (all, ← e) (read64-write64 (λ x. 0) (pool_curr base) (base + 16 + n * 128) (omega arith))

-- With one of them, in use.
abbrev one_pool : TlsPool
one_pool = record { head = base; free = 0; alloc_size = 128; chunk_size = mib; allocated = 1 }

abbrev one_live : Ptr → Bool
one_live p = p == base + 16

zeros : read64 (λ x. 0) base ≡ null
unfolding read64 read
zeros = refl

one-IsPool : IsPool (blocks 1) one_pool (base ∷ []) [] (update (λ c. 0) base 1) one_live
one-IsPool = record {
  laid = blocks-IsLaid 1 (omega arith);
  unit = refl;
  chunks = (
    refl,
    (λ z. omega arith),
    refl,
    read64-write64_apart (λ x. 0) base (pool_curr base) (base + 16 + 1 * 128) (omega arith) ∙ zeros,
  );
  frees = refl;
  free = λ p h. absurd (ground arith);
  used = λ p h. (base, refl, 0, omega arith, ground arith);
  apart = λ p h. refl;
}

abbrev one_world : World os
one_world = record { memory = blocks 1; global = place mib; system = tt }

dealloc-IsPool_example :
    (w' : World os) × (t' : TlsPool) × (dealloc os false one_world one_pool (base + 16)
      ≡ ok (w', t'))
    × IsPool w'.memory t'
        (base ∷ [])
        ((base + 16) ∷ [])
        (update (λ c. 0) base 1)
        (update one_live (base + 16) false)
    × Keeps (update one_live (base + 16) false) 128 (blocks 1) w'.memory
dealloc-IsPool_example =
    dealloc-IsPool os false one_world one_pool (base ∷ []) [] (update (λ c. 0) base 1) one_live
      (base + 16) one-IsPool refl

-- The program writes one byte behind its bytes.
abbrev overrun : Memory
overrun x = if 4096 + 88 == x then 1 else stamp (λ x. 0) 4096 40 7 3 9 x

overrun-IsBytes : IsBytes overrun
overrun-IsBytes x =
    ground (arith, stamp-IsBytes (λ x. 0) 4096 40 7 3 9 (omega arith) (λ x. omega arith) x)

changed : overrun (4096 + 88) ≢ stamp (λ x. 0) 4096 40 7 3 9 (4096 + 88)
unfolding stamp ThreadLocalPool.post_pad ThreadLocalPool.header_size write64 write16 write read64
    read
changed e = omega arith

overrun_detected_example : check_fences false overrun 4096 ≡ aborted
overrun_detected_example =
    overrun_detected (λ x. 0) overrun 4096 40 7 3 9 (4096 + 88) (omega arith) (λ x. omega arith)
      overrun-IsBytes (λ y within. ground arith) (inr (omega arith, omega arith)) changed

abbrev heap : Heap
heap = record { State = Unit {0}; malloc = λ s size. (0, s); free = λ s p. s }

abbrev stamped_world : World os
stamped_world = record { memory = stamp (λ x. 0) 4096 40 7 3 9; global = place mib; system = tt }

abbrev pub no_pools : ThreadPool
no_pools = record { tls_pool = []; mapping_pool = λ n. none; max_alloc_size = 0 }

dealloc-stamp_example :
    ThreadLocalPool.dealloc os heap false stamped_world tt no_pools (user_pointer 4096)
    ≡ free_block os heap false stamped_world tt no_pools 4096 (whole_size 40)
dealloc-stamp_example =
    dealloc-stamp os heap false stamped_world tt no_pools (λ x. 0) 4096 40 7 3 9 (omega arith)
      (λ y within. refl)

-- A thread's pools, for one size, as `init` makes them.
abbrev pub small_sizes : List ℕ
small_sizes = 64 ∷ []

abbrev pub small_pools : ThreadPool
small_pools = record {
  tls_pool = create_pools small_sizes (place mib);
  mapping_pool = (map_pools small_sizes 0 (0, λ n. none)).1;
  max_alloc_size = 64;
}

pub small_made : init false 4096 small_sizes (place mib) ≡ ok small_pools
unfolding init map_pools map_pool max_size
small_made = refl

init-first_fit_example :
    (tp : ThreadPool) × (init false 4096 (64 ∷ 128 ∷ []) (place mib) ≡ ok tp)
    × (tp.tls_pool ≡ create_pools (64 ∷ 128 ∷ []) (place mib))
    × ((n : ℕ)
        → 0 < n
        → n ≤ tp.max_alloc_size
        → (i : ℕ) × (size : ℕ) × (tp.mapping_pool n ≡ some i)
          × (get_elem? (64 ∷ 128 ∷ []) i ≡ some size)
          × (n ≤ size)
          × ((j t : ℕ) → j < i → get_elem? (64 ∷ 128 ∷ []) j ≡ some t → t < n))
init-first_fit_example = init-first_fit false 4096 64 (128 ∷ []) (place mib) (λ z. omega (arith, z))

user_pointer-Block_example : user_pointer (base + 16) % 64 ≡ 0
user_pointer-Block_example =
    user_pointer-Block (base ∷ []) (update (λ c. 0) base 1) 128 (base + 16) refl
      (λ c h. ground arith) (base, refl, 0, omega arith, refl)
