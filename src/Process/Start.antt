-- ===== src/Process/Start.antt =====
-- The process at its start: a fresh reservation, and the pools of every thread as `init` makes them.
use np_alloc.Prelude.{
  ℕ, zero, suc, ◌+◌, ◌*◌, ◌%◌, ◌^◌, ◌≤◌, ◌<◌, ◌≡◌, ◌≢◌, ◌==◌, refl, ap, sym, subst, ◌∙◌, Bool, true,
  false, List, [], ◌∷◌, none, some, length, get_elem?, get_or, arith, ◌&&◌, leb,
}
use np_alloc.Memory.{Memory}
use np_alloc.Mmap.{Os, ok, create, assert}
use np_alloc.Mmap.Chunks.{mib}
use np_alloc.Mmap.Reserve.{reserved}
use np_alloc.GlobalPool.{GlobalPool}
use np_alloc.TlsPsPool.{TlsPool, World, sizeof_pool}
use np_alloc.TlsPsPool as TlsPsPool
use np_alloc.ThreadLocalPool.{
  write_table, ThreadPool, Heap, init, create_pools, max_size, map_pools,
}
use np_alloc.ThreadLocalPool.Sizes.{sizes}
use np_alloc.ThreadLocalPool.Mapping.{init-first_fit}
use np_alloc.Allocator.Supply.{Commits, Yields, Yields-bind}
use np_alloc.Allocator.Start.{created-IsAllocator}
use np_alloc.Process.{number, IsTable}
use np_alloc.Process.Large.{HeapLaws}
use np_alloc.Process.Runs.{State, IsStanding}

-- The size of pool number `j`.
abbrev class : ℕ → ℕ
class j = get_or sizes (j % 25) 64

-- Every size is wide enough for a link, and fits into a chunk.
abbrev all_fit : List ℕ → Bool
all_fit [] = true
all_fit (x ∷ l) = leb 8 x && leb (sizeof_pool + x) mib && all_fit l

get_or-all_fit :
    (l : List ℕ) (i : ℕ)
    → all_fit l ≡ true
    → (8 ≤ get_or l i 64) × (sizeof_pool + get_or l i 64 ≤ mib)
get_or-all_fit [] i e = omega arith
get_or-all_fit (x ∷ l) zero e = ground (arith, e)
get_or-all_fit (x ∷ l) (suc i) e = get_or-all_fit l i (ground (arith, e))

get_or-get_elem? :
    (l : List ℕ) (i a d : ℕ) → get_elem? l i ≡ some a → (get_or l i d ≡ a) × (i < length l)
get_or-get_elem? [] i a d e = absurd (cc)
get_or-get_elem? (x ∷ l) zero a d e = (ground (arith, e), omega arith)
get_or-get_elem? (x ∷ l) (suc i) a d e =
    let (eq, lt) = get_or-get_elem? l i a d e in (eq, omega (arith, lt))

create_pools-get_elem? :
    (l : List ℕ) (g : GlobalPool) (i a : ℕ)
    → get_elem? l i ≡ some a
    → get_elem? (create_pools l g) i ≡ some (TlsPsPool.create a g)
create_pools-get_elem? [] g i a e = absurd (cc)
create_pools-get_elem? (x ∷ l) g zero a e =
    let eq : x ≡ a = ground (arith, e) in ap (λ y. some (TlsPsPool.create y g)) eq
create_pools-get_elem? (x ∷ l) g (suc i) a e = create_pools-get_elem? l g i a e

init-max :
    (nd : Bool) (mapping : ℕ) (l : List ℕ) (g : GlobalPool)
    → Yields (λ tp. tp.max_alloc_size ≡ max_size l 0) (init nd mapping l g)
unfolding init
init-max nd mapping l g =
    Yields-bind (λ (tp : ThreadPool). tp.max_alloc_size ≡ max_size l 0) (write_table mapping l) _
      (λ _.
        Yields-bind (λ (tp : ThreadPool). tp.max_alloc_size ≡ max_size l 0)
          (assert nd ((map_pools l 0 (0, λ n. none)).0 == max_size l 0 + 1)) _ (λ _. refl))

sizes_max : max_size sizes 0 ≡ 8256
unfolding max_size
sizes_max = refl

created : (a : ℕ) (g : GlobalPool) → (TlsPsPool.create a g).alloc_size ≡ a
unfolding TlsPsPool.create
created a g = refl

-- What `init` makes of the sizes.
pub init-sizes :
    (mapping : ℕ) (g : GlobalPool)
    → mapping ≢ 0
    → (tp : ThreadPool) × (init false mapping sizes g ≡ ok tp)
      × (tp.tls_pool ≡ create_pools sizes g)
      × (tp.max_alloc_size ≡ 8256)
      × IsTable sizes tp.mapping_pool 8256
init-sizes mapping g there =
    let (tp, run, pools, fits) =
      init-first_fit false mapping 64
        (128 ∷ 192 ∷ 256 ∷ 320 ∷ 384 ∷ 448 ∷ 512 ∷ 576 ∷ 704 ∷ 832 ∷ 960 ∷ 1088 ∷ 1344 ∷ 1600 ∷ 1856
          ∷ 2112 ∷ 2624 ∷ 3136 ∷ 3648 ∷ 4160 ∷ 5184 ∷ 6208 ∷ 7232 ∷ 8256 ∷ [])
        g there in
    let top : tp.max_alloc_size ≡ max_size sizes 0 =
      subst (λ r. Yields (λ (x : ThreadPool). x.max_alloc_size ≡ max_size sizes 0) r) run
        (init-max false mapping sizes g) in
    let most : tp.max_alloc_size ≡ 8256 = top ∙ sizes_max in
    (
      tp,
      run,
      pools,
      most,
      record {
        small = omega arith;
        fits = λ n lo hi.
            let (i, size, mapped, at, le, least) = fits n lo (omega (arith, hi, most)) in
            (i, size, mapped, at, le);
      },
    )

-- The start, with the 4 GB that the constructor of the global pool asks for first reserved at `v`,
-- where `tp` is what `init` makes for each thread.
module _ (os : Os) (heap : Heap) (commits : Commits os) (v : ℕ) (laws : HeapLaws heap v)
    (tp : ThreadPool) where
  unfoldable pub start :
      Memory
      → os.State
      → heap.State
      → (page_size : ℕ) → State os heap commits v laws sizes tp.mapping_pool 8256
  start m s h page_size = record {
    world = record { memory = m; global = reserved (create page_size) v (4096 * mib); system = s };
    large = h;
    threads = λ k. tp;
    asked = λ p. none;
    big = λ p. none;
  }

  pub start-IsStanding :
      (m : Memory) (s : os.State) (h : heap.State) (page_size mapping : ℕ)
      → laws.Has h (λ p. 0)
      → 0 < v
      → v + 4097 * mib < 2 ^ 63
      → mapping ≢ 0
      → init false mapping sizes (reserved (create page_size) v (4096 * mib)) ≡ ok tp
      → IsStanding os heap commits v laws sizes tp.mapping_pool 8256 (start m s h page_size)
  unfolding start
  start-IsStanding m s h page_size mapping clean pos room there made =
      let g : GlobalPool = reserved (create page_size) v (4096 * mib) in
      let (b, stands, live) =
        created-IsAllocator m page_size v (4096 * mib) class pos room
          (λ j. get_or-all_fit sizes (j % 25) refl) in
      let (tp', run, pools', max', table') = init-sizes mapping g there in
      let (pools, max, table) =
        subst
          (λ r.
            Yields
              (λ (x : ThreadPool).
                (x.tls_pool ≡ create_pools sizes g)
                × (x.max_alloc_size ≡ 8256)
                × IsTable sizes x.mapping_pool 8256)
              r)
          (sym run ∙ made) (pools', max', table') in
      (
        (λ j. TlsPsPool.create (class j) g),
        b,
        (λ p. 0),
        record {
          tabled = table;
          stands = stands;
          thread = λ k. record {
            same_table = refl;
            same_max = max;
            pool = λ i size e.
                let (eq, lt) = get_or-get_elem? sizes i size 64 e in
                let at : (k * 25 + i) % 25 ≡ i = omega (arith, lt) in
                let same : class (number 25 k i) ≡ size = rw at eq in
                (
                  ap (λ l. get_elem? l i) pools
                      ∙ create_pools-get_elem? sizes g i size e
                      ∙ ap (λ x. some (TlsPsPool.create x g)) (sym same),
                  created (class (number 25 k i)) g ∙ same,
                );
          };
          unused = λ p e. ap (λ l. l p) live;
          held = λ p n e. cc;
        },
        clean,
        record { unused = λ p e. refl; held = λ p n e. cc },
        refl,
      )
