-- ===== src/ThreadLocalPool/Current/Life.antt =====
-- From a thread's first allocation to the end of its pool.
use np_alloc.Prelude.{
  ℕ, suc, ◌<◌, ◌≡◌, ◌||◌, refl, ap, sym, ◌∙◌, ◌+◌, ◌≤◌, ◌⊎◌, ◌≢◌, subst, Bool, true, false, List,
  [], ◌∷◌, ◌++◌, Option, none, some, has, length, arith,
}
use mathlib.Core.List.{reverse_aux}
use np_alloc.Memory.{Memory, read64, read64-frame}
use np_alloc.LfStack.{Ptr, update}
use np_alloc.LfStack.Chain.{Chain, Chain-frame}
use np_alloc.Mmap.{Os, Result, ok, fault, ◌>>=◌}
use np_alloc.Mmap.Chunks.{IsPool}
use np_alloc.GlobalPool.{GlobalPool}
use np_alloc.TlsPsPool.{destroy, TlsPool, World}
use np_alloc.TlsPsPool.Deinit.{without, deinit-IsPool}
use np_alloc.Thread.Exit.{
  Tls, new_thread, thread_atexit, tls_destructor, register, run_thread, run_thread-reverse,
}
use np_alloc.Allocator.Supply.{Yields, Yields-bind}
use np_alloc.ThreadLocalPool.{ThreadPool, Heap, init}
use np_alloc.ThreadLocalPool.Sizes.{sizes, get_alloc_size_list_lem}
use np_alloc.ThreadLocalPool.Mapping.{init-first_fit}
use np_alloc.ThreadLocalPool.Current.{
  unset, live, dangling, Current, delete_callback, construct, get, with_current, allocate,
  deinit_all, deleted, delete_pool,
}

-- The chunks of several pools, pool by pool: on the left all of them, and what is left of the
-- global pool's books when the pools are gone.
abbrev pub all_chunks : List (List Ptr) → List Ptr
all_chunks [] = []
all_chunks (cs ∷ css) = cs ++ all_chunks css

abbrev pub returned : List (List Ptr) → List Ptr → List Ptr
returned [] l = l
returned (cs ∷ css) l = returned css (reverse_aux cs l)

abbrev pub without_all : (Ptr → Bool) → List (List Ptr) → Ptr → Bool
without_all given [] = given
without_all given (cs ∷ css) = without_all (without given cs) css

-- The pools `ts` have the chunks `css`, no chunk in two of them, and `fuel` is enough for each.
abbrev pub Chunks : Memory → (fuel : ℕ) → List TlsPool → List (List Ptr) → Type 0
Chunks m fuel [] [] = Unit
Chunks m fuel [] (cs ∷ css) = ⊥
Chunks m fuel (t ∷ ts) [] = ⊥
Chunks m fuel (t ∷ ts) (cs ∷ css) =
    Chain (read64 m) t.head cs
    × (length cs < suc fuel)
    × ((c : Ptr) → has c cs ≡ true → has c (all_chunks css) ≡ false)
    × Chunks m fuel ts css

has-append : (c : Ptr) (k l : List Ptr) → has c (k ++ l) ≡ (has c k || has c l)
has-append c [] l = refl
has-append c (x ∷ k) l = ground (arith, has-append c k l)

without-other :
    (given : Ptr → Bool) (cs : List Ptr) (c : Ptr)
    → given c ≡ true
    → has c cs ≡ false
    → without given cs c ≡ true
without-other given [] c h o = h
without-other given (x ∷ cs) c h o =
    without-other (update given x false) cs c (ground (arith, h, o)) (ground (arith, o))

Chunks-frame :
    (m m' : Memory) (fuel : ℕ) (ts : List TlsPool) (css : List (List Ptr))
    → ((c : Ptr) → has c (all_chunks css) ≡ true → read64 m' c ≡ read64 m c)
    → Chunks m fuel ts css
    → Chunks m' fuel ts css
Chunks-frame m m' fuel [] [] same h = tt
Chunks-frame m m' fuel [] (cs ∷ css) same h = h
Chunks-frame m m' fuel (t ∷ ts) [] same h = h
Chunks-frame m m' fuel (t ∷ ts) (cs ∷ css) same (chain, enough, apart, rest) = (
  Chain-frame (read64 m) (read64 m') t.head cs
      (λ q h. same q (ground (arith, has-append q cs (all_chunks css), h))) chain,
  enough,
  apart,
  Chunks-frame m m' fuel ts css
      (λ c h. same c (ground (arith, has-append c cs (all_chunks css), h))) rest,
)

-- The pools `ts` have the free blocks `fls`, which lie apart from the links of all chunks that are
-- given out, and `fuel` is enough for each.
abbrev pub Frees : Memory → (fuel : ℕ) → (Ptr → Bool) → List TlsPool → List (List Ptr) → Type 0
Frees m fuel given [] fls = Unit
Frees m fuel given (t ∷ ts) [] = ⊥
Frees m fuel given (t ∷ ts) (fl ∷ fls) =
    Chain (read64 m) t.free fl
    × (length fl < suc fuel)
    × ((q c : Ptr) → has q fl ≡ true → given c ≡ true → (q + 8 ≤ c) ⊎ (c + 8 ≤ q))
    × Frees m fuel given ts fls

Frees-frame :
    (m m' : Memory) (fuel : ℕ) (given given' : Ptr → Bool) (ts : List TlsPool)
    (fls : List (List Ptr))
    → ((y : ℕ) → ((c : Ptr) → given c ≡ true → (y < c) ⊎ (c + 8 ≤ y)) → m' y ≡ m y)
    → ((c : Ptr) → given' c ≡ true → given c ≡ true)
    → Frees m fuel given ts fls
    → Frees m' fuel given' ts fls
Frees-frame m m' fuel given given' [] fls same less h = tt
Frees-frame m m' fuel given given' (t ∷ ts) [] same less h = h
Frees-frame m m' fuel given given' (t ∷ ts) (fl ∷ fls) same less (chain, enough, apart, rest) = (
  Chain-frame (read64 m) (read64 m') t.free fl
      (λ q h. read64-frame m m' q (λ y lo hi. same y (λ c own. omega (arith, apart q c h own))))
      chain,
  enough,
  λ q c h own. apart q c h (less c own),
  Frees-frame m m' fuel given given' ts fls same less rest,
)

without-given :
    (given : Ptr → Bool) (cs : List Ptr) (c : Ptr) → without given cs c ≡ true → given c ≡ true
without-given given [] c h = h
without-given given (x ∷ cs) c h =
    let less = without-given (update given x false) cs c h in ground (arith, less)

module _ (os : Os) (heap : Heap) (mapping : ℕ) (table_sizes : List ℕ) where
  deinit_all-IsPool :
      (fuel : ℕ) (w : World os) (ts : List TlsPool) (css fls : List (List Ptr))
      → (n : ℕ) (l : List Ptr) (given : Ptr → Bool) → IsPool w.memory w.global n l given
      → Chunks w.memory fuel ts css
      → Frees w.memory fuel given ts fls
      → ((c : Ptr) → has c (all_chunks css) ≡ true → given c ≡ true)
      → (w' : World os) × (deinit_all os heap false mapping table_sizes fuel true w ts ≡ some w')
        × IsPool w'.memory w'.global n (returned css l) (without_all given css)
  unfolding deinit_all destroy
  deinit_all-IsPool fuel w [] [] fls n l given v h k own = (w, refl, v)
  deinit_all-IsPool fuel w [] (cs ∷ css) fls n l given v h k own = absurd h
  deinit_all-IsPool fuel w (t ∷ ts) [] fls n l given v h k own = absurd h
  deinit_all-IsPool fuel w (t ∷ ts) (cs ∷ css) [] n l given v h k own = absurd k
  deinit_all-IsPool fuel w (t ∷ ts) (cs ∷ css) (fl ∷ fls) n l given v (chain, enough, apart, rest)
        (free, enough', clear, rest') own =
      let mine : (c : Ptr) → has c cs ≡ true → given c ≡ true =
        λ c h. own c (ground (arith, has-append c cs (all_chunks css), h)) in
      let others : (c : Ptr)
          → has c (all_chunks css) ≡ true
          → (given c ≡ true) × (has c cs ≡ false) =
        λ c h. (
          own c (ground (arith, has-append c cs (all_chunks css), h)),
          ground (arith, apart c, h),
        ) in
      let (w', run, v', same, frame) =
        deinit-IsPool os cs fl fuel w t n l given v chain mine enough free enough' in
      let (w'', run', v'') =
        deinit_all-IsPool fuel w' ts css fls n (reverse_aux cs l) (without given cs) v'
          (Chunks-frame w.memory w'.memory fuel ts css (λ c h. same c (others c h).0 (others c h).1)
            rest)
          (Frees-frame w.memory w'.memory fuel given (without given cs) ts fls
            (λ y out. frame y (λ c h. out c (mine c h))) (without-given given cs) rest')
          (λ c h. without-other given cs c (others c h).0 (others c h).1) in
      (w'', rw (deinit_all, run) run', v'')

  -- When a thread's pool is deleted while the global pool is alive and well formed, its chunks are
  -- given out, each to one size, and the free blocks of each size form a list that lies apart from
  -- the links of the chunks: with fuel for each of these lists, all loops end, and the chunks of the
  -- pools of all sizes go back to the global pool, which stays well formed: they stand in front of
  -- its free list and are no longer given out.
  pub delete_pool-IsPool :
      (fuel : ℕ) (w : World os) (c : Current) (pool : ThreadPool) (css fls : List (List Ptr))
      → (n : ℕ) (l : List Ptr) (given : Ptr → Bool) → c.s_pool ≡ live pool
      → IsPool w.memory w.global n l given
      → Chunks w.memory fuel pool.tls_pool css
      → Frees w.memory fuel given pool.tls_pool fls
      → ((p : Ptr) → has p (all_chunks css) ≡ true → given p ≡ true)
      → (w' : World os) × (delete_pool os heap false mapping table_sizes fuel true w c
          ≡ some (w', record c { s_pool = dangling }))
        × IsPool w'.memory w'.global n (returned css l) (without_all given css)
  unfolding delete_pool
  delete_pool-IsPool fuel w c pool css fls n l given is_live v h k own =
      let (w', run, v') = deinit_all-IsPool fuel w pool.tls_pool css fls n l given v h k own in
      (w', rw (is_live, run) refl, v')

  -- What the first call of `get` in a thread makes of its state.
  abbrev Made : Tls → Current → Type 0
  Made tls c =
      ((pool : ThreadPool) × (c.s_pool ≡ live pool))
      × (c.tls ≡ thread_atexit tls (some delete_callback))

  get-Made :
      (g : GlobalPool) (tls : Tls) → Yields (Made tls) (get false mapping table_sizes g unset tls)
  unfolding get
  get-Made g tls =
      Yields-bind (Made tls) (init false mapping table_sizes g) _ (λ pool. ((pool, refl), refl))

  deleted-dangling :
      (fuel : ℕ) (w w' : World os) (c c' : Current) (pool : ThreadPool)
      → c.s_pool ≡ live pool
      → delete_pool os heap false mapping table_sizes fuel true w c ≡ some (w', c')
      → c'.s_pool ≡ dangling
  unfolding delete_pool
  deleted-dangling fuel w w' c c' pool is_live e =
      ends (deinit_all os heap false mapping table_sizes fuel true w pool.tls_pool)
        (sym (rw is_live refl) ∙ e)
    where
      ends :
          (o : Option (World os))
          → deleted os heap false mapping table_sizes c o ≡ some (w', c')
          → c'.s_pool ≡ dangling
      ends none h = absurd (cc)
      ends (some x) h =
          subst
            (λ (r : Option (World os × Current)). elim r [
              | none ↦ Unit
              | some q ↦ q.1.s_pool ≡ dangling
            ])
            h refl

  -- A callback `f` that a thread registers before its first allocation, where no callback registers
  -- another: the first `get` registers the callback that deletes the thread's pool behind it. At the
  -- thread's end that one runs first, and when it has deleted the pool and `f` runs, an allocation
  -- in `f` uses the deleted pool.
  pub allocate-delete_pool :
      (adds : ℕ → List (Option ℕ)) (k : Bool) (f fuel : ℕ) (g : GlobalPool) (w w' : World os)
      (c c' : Current)
      → ((h : ℕ) → adds h ≡ [])
      → get false mapping table_sizes g unset (thread_atexit (new_thread k) (some f)) ≡ ok c
      → delete_pool os heap false mapping table_sizes fuel true w c ≡ some (w', c')
      → (tls_destructor adds 2 c.tls ≡ some (delete_callback ∷ f ∷ []))
        × ((s : heap.State) (bytes file line thread_id : ℕ)
            → allocate os heap false mapping table_sizes w' s c' bytes file line thread_id ≡ fault)
  unfolding allocate with_current get
  allocate-delete_pool adds k f fuel g w w' c c' quiet first deleted =
      let tls = thread_atexit (new_thread k) (some f) in
      let (made, queued) = subst (λ r. Yields (Made tls) r) first (get-Made g tls) in
      let gone = deleted-dangling fuel w w' c c' made.0 made.1 deleted in
      (
        rw queued (
            unfold run_thread register in
            run_thread-reverse adds 2 k (some f ∷ some delete_callback ∷ []) quiet (omega arith)),
        λ s bytes file line thread_id. rw gone refl,
      )

-- The first call of `get` in a thread makes the pool and registers its deletion, once: further
-- calls find the pool and register nothing.
pub get_once :
    (ndebug : Bool) (mapping size : ℕ) (sizes : List ℕ) (g : GlobalPool) (tls : Tls)
    → mapping ≢ 0
    → (pool : ThreadPool) × (init ndebug mapping (size ∷ sizes) g ≡ ok pool)
      × (get ndebug mapping (size ∷ sizes) g unset tls
          ≡ ok (record { s_pool = live pool; tls = thread_atexit tls (some delete_callback) }))
      × ((tls' : Tls)
          → get ndebug mapping (size ∷ sizes) g (live pool) tls'
            ≡ ok (record { s_pool = live pool; tls = tls' }))
unfolding get
get_once ndebug mapping size sizes g tls there =
    let (pool, made, of, fit) = init-first_fit ndebug mapping size sizes g there in
    (pool, made, rw made refl, λ tls'. refl)

-- The constructor makes the pools of the 25 sizes with fuel for six rounds or more.
pub construct_lem :
    (fuel : ℕ) (ndebug : Bool) (mapping : ℕ) (g : GlobalPool)
    → construct (suc (suc (suc (suc (suc (suc fuel)))))) ndebug mapping g
      ≡ some (init ndebug mapping sizes g)
unfolding construct
construct_lem fuel ndebug mapping g =
    ap
      (λ (r : Option (Result (List ℕ))). elim r [
        | none ↦ none
        | some found ↦ some (found >>= λ l. init ndebug mapping l g)
      ])
      (get_alloc_size_list_lem fuel ndebug)
