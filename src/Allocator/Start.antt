-- ===== src/Allocator/Start.antt =====
-- The pools over a fresh reservation, and over one that is used up.
use np_alloc.Prelude.{ℕ, ◌+◌, ◌*◌, ◌^◌, ◌≤◌, ◌<◌, ◌≡◌, refl, ap, subst, ◌∙◌, false, [], arith}
use np_alloc.Memory.{Memory, read64}
use np_alloc.LfStack.{null}
use np_alloc.LfStack.Chain.{Chain}
use np_alloc.Mmap.{Mmap, create}
use np_alloc.Mmap.Chunks.{mib}
use np_alloc.Mmap.Reserve.{reserved, reserved-IsPool}
use np_alloc.GlobalPool
use np_alloc.TlsPsPool.{TlsPool, sizeof_pool}
use np_alloc.TlsPsPool as TlsPsPool
use np_alloc.Allocator.{Books, IsAllocator}

-- Sizes of blocks that are wide enough for a link and fit into a chunk.
abbrev pub FitSizes : (ℕ → ℕ) → Type 0
FitSizes sizes = (i : ℕ) → (8 ≤ sizes i) × (sizeof_pool + sizes i ≤ mib)

-- Pools of the sizes `sizes i` over a reservation of `size` bytes at `v`, before the first call.
pub created-IsAllocator :
    (m : Memory) (page_size v size : ℕ) (sizes : ℕ → ℕ)
    → 0 < v
    → v + 4097 * mib < 2 ^ 63
    → FitSizes sizes
    → (b : Books) × IsAllocator m
        (reserved (create page_size) v size)
        (λ i. TlsPsPool.create (sizes i) (reserved (create page_size) v size))
        b
      × (b.live ≡ λ p. 0)
unfolding TlsPsPool.create GlobalPool.get_chunk_size create
created-IsAllocator m page_size v size sizes pos room fit = (
  record {
    made = 0;
    waiting = [];
    shape = record { given = λ p. false; size = λ p. 0; count = λ p. 0 };
    chunks = λ i. [];
    frees = λ i. [];
    live = λ p. 0;
  },
  record {
    global = reserved-IsPool m page_size v size pos (omega arith);
    high = room;
    wide = λ c h. cc;
    curr = λ c h. cc;
    fits = λ c h. cc;
    local = λ i. record {
      unit = refl;
      wide = (fit i).0;
      fit = (fit i).1;
      chunks = refl;
      frees = refl;
      mine = λ c h. cc;
      free = λ p h. cc;
    };
    own = λ i j c ne h. refl;
    alone = λ i j p ne h. refl;
    used = λ p h. absurd (h refl);
    idle = λ i p h. refl;
  },
  refl,
)

-- No chunk is left.
pub exhausted :
    {m : Memory} {mm : Mmap} {pools : ℕ → TlsPool} {b : Books}
    → IsAllocator m mm pools b
    → b.made ≡ 4096
    → b.waiting ≡ []
    → (mm.head ≡ mm.ptr + 4096 * mib) × (mm.free_head.ptr ≡ null)
exhausted {m} {mm} {b} v full empty = (
  v.global.top ∙ ap (λ (n : ℕ). mm.ptr + n * mib) full,
  subst (λ l. Chain (read64 m) mm.free_head.ptr l) empty v.global.chain,
)
