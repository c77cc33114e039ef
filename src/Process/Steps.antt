-- ===== src/Process/Steps.antt =====
-- Every step of the threads keeps the process well formed.
use np_alloc.Prelude.{
  ℕ, ◌+◌, ◌*◌, ◌^◌, ◌≤◌, ◌<◌, ◌≡◌, ◌==◌, refl, ap, sym, subst, fun_ext, ◌∙◌, false, List, Option,
  none, some, arith, inl, inr, Bool-cases, ==_iff,
}
use np_alloc.LfStack.{Ptr, update}
use np_alloc.Mmap.{Os}
use np_alloc.Mmap.Chunks.{mib}
use np_alloc.TlsPsPool.Blocks.{Apart}
use np_alloc.TlsPsPool.{TlsPool, World, with_memory}
use np_alloc.ThreadLocalPool.{ThreadPool, Heap, alloc, user_pointer}
use np_alloc.Allocator.{Books}
use np_alloc.Allocator.Layout.{Same}
use np_alloc.Allocator.Supply.{Commits, Yields}
use np_alloc.Process.{IsProcess}
use np_alloc.Process.Calls.{Allocates, alloc-Stands}
use np_alloc.Process.Release.{np_free-Stands}
use np_alloc.Process.Large.{HeapLaws, IsLarge}
use np_alloc.Process.LargeCalls.{large_alloc, np_free-IsLarge, large_placed, written-IsLarge}
use np_alloc.Process.Writes.{
  user-Apart, user_pointer_injective, written-IsProcess, in_reservation, foreign-IsProcess,
  apart-IsLarge,
}
use np_alloc.Process.Runs.{
  State, Step, Reach, IsStanding, here, then, wraps, Fits, allocates, allocates_large,
  allocates_wrapped, releases, releases_large, writes,
}

module _ (os : Os) (heap : Heap) (commits : Commits os) (base : ℕ) (laws : HeapLaws heap base)
    (sizes : List ℕ) (table : ℕ → Option ℕ) (max : ℕ) where
  -- What a call of `alloc` gives from a pool, as a block `h`, and what one gives from `malloc`.
  abbrev pub FromPool :
      State os heap commits base laws sizes table max
      → (k bytes : ℕ) → (ℕ × World os × heap.State) × ThreadPool
      → Type 0
  FromPool s k bytes ((p, w, r), tp) =
      (h : ℕ) × (p ≡ user_pointer h)
      × (r ≡ s.large)
      × Allocates os heap commits sizes table max s.world s.large s.threads s.asked k bytes h w tp

  abbrev pub FromMalloc :
      State os heap commits base laws sizes table max
      → (l : Ptr → ℕ) → (k bytes : ℕ) → (ℕ × World os × heap.State) × ThreadPool
      → Type 0
  FromMalloc s l k bytes ((p, w, r), tp) =
      (h : ℕ) × (p ≡ user_pointer h)
      × (tp ≡ s.threads k)
      × (Apart h (bytes + 64) base (4096 * mib))
      × Same h (bytes + 64) s.world.memory w.memory
      × (w.global ≡ s.world.global)
      × (s.big h ≡ none)
      × ((l' : Ptr → ℕ) × laws.Has r l' × IsLarge max w.memory (update s.big h (some bytes)) l')

  pub pool-Yields :
      (s : State os heap commits base laws sizes table max) (pools : ℕ → TlsPool) (b : Books)
      (k bytes file line thread_id : ℕ)
      → IsProcess os sizes table max s.world s.threads s.asked pools b
      → bytes + 64 ≤ max
      → Yields
          (FromPool s k bytes)
          (alloc os heap false s.world s.large (s.threads k) bytes file line thread_id)
  pool-Yields s pools b k bytes file line thread_id v small =
      elim (alloc-Stands os heap commits sizes table max s.world s.large s.threads s.asked pools b v
        k bytes file line thread_id small) [
          | inl (h, w, tp, run, allocated) ↦ rw run (h, refl, refl, allocated)
          | inr (full, empty, run) ↦ rw run tt
        ]

  pub malloc-Yields :
      (s : State os heap commits base laws sizes table max) (l : Ptr → ℕ)
      (k bytes file line thread_id : ℕ)
      → laws.Has s.large l
      → IsLarge max s.world.memory s.big l
      → (s.threads k).max_alloc_size ≡ max
      → max < bytes + 64
      → bytes + 64 < 2 ^ 64
      → Yields
          (FromMalloc s l k bytes)
          (alloc os heap false s.world s.large (s.threads k) bytes file line thread_id)
  malloc-Yields s l k bytes file line thread_id has v same_max above room =
      elim (large_alloc os heap base max laws s.world s.large s.big l has v (s.threads k) same_max
        bytes file line thread_id above room) [
          | inl (h, w, r, run, (new, not_big, out, same, fixed, more)) ↦
              rw run (h, refl, refl, out, same, fixed, not_big, more)
          | inr (null, run) ↦ rw run tt
        ]

  same_threads : (f : ℕ → ThreadPool) (k : ℕ) (tp : ThreadPool) → tp ≡ f k → update f k tp ≡ f
  same_threads f k tp e = fun_ext λ j. elim (Bool-cases (k == j)) [
    | inl y ↦ rw y (e ∙ ap f ((==_iff k j).0 y))
    | inr n ↦ rw n refl
  ]

  -- Every step keeps all well formed, where no number of bytes wraps.
  pub step-IsStanding :
      (s s' : State os heap commits base laws sizes table max)
      (step : Step os heap commits base laws sizes table max s s')
      → wraps os heap commits base laws sizes table max step ≡ false
      → IsStanding os heap commits base laws sizes table max s
      → IsStanding os heap commits base laws sizes table max s'
  step-IsStanding s _ (allocates k bytes file line thread_id h w r tp small run) fit
        (pools, b, l, v, has, big, at) =
      let (h', eq, same, (new, some_h, (pools', b', v'), keeps, fixed, outside, from, to)) =
        subst (λ x. Yields (FromPool s k bytes) x) run
          (pool-Yields s pools b k bytes file line thread_id v small) in
      (
        pools',
        b',
        l,
        subst
            (λ x.
              IsProcess os sizes table max w (update s.threads k tp) (update s.asked x (some bytes))
                pools' b')
            (sym (user_pointer_injective h h' eq)) v',
        subst (λ x. laws.Has x l) (sym same) has,
        apart-IsLarge os heap commits base laws sizes table max s.world w s.large s.big l has big at
            outside,
        fixed ∙ at,
      )
  step-IsStanding s _ (allocates_large k bytes file line thread_id h w r tp above room run) fit
        (pools, b, l, v, has, big, at) =
      let (h', eq, same_tp, out, same, fixed, not_big, (l', has', big')) =
        subst (λ x. Yields (FromMalloc s l k bytes) x) run
          (malloc-Yields s l k bytes file line thread_id has big (v.thread k).same_max above
            room) in
      (
        pools,
        b,
        l',
        subst (λ f. IsProcess os sizes table max w f s.asked pools b)
            (sym (same_threads s.threads k tp same_tp))
            (foreign-IsProcess os heap commits base laws sizes table max s.world w s.threads s.asked
              pools b h' (bytes + 64) v at fixed out same),
        has',
        subst (λ x. IsLarge max w.memory (update s.big x (some bytes)) l')
            (sym (user_pointer_injective h h' eq)) big',
        ap (λ g. g.ptr) fixed ∙ at,
      )
  step-IsStanding s _ (allocates_wrapped k bytes file line thread_id h w r tp above below run) fit
        standing =
      absurd (cc)
  step-IsStanding s _ (releases k h bytes w r tp e run) fit (pools, b, l, v, has, big, at) =
      let (w', tp', run', stands, keeps, fixed, outside) =
        np_free-Stands os heap commits sizes table max s.world s.large s.threads s.asked pools b v k
          h bytes e in
      subst
        (λ x.
          Yields
            (λ ((w, r), tp). IsStanding os heap commits base laws sizes table max record s {
              world = w;
              large = r;
              threads = update s.threads k tp;
              asked = update s.asked h none;
            })
            x)
        (sym run' ∙ run)
        (
          stands.0,
          stands.1,
          l,
          stands.2,
          has,
          apart-IsLarge os heap commits base laws sizes table max s.world w' s.large s.big l has big
              at outside,
          fixed ∙ at,
        )
  step-IsStanding s _ (releases_large k h bytes w r tp e run) fit (pools, b, l, v, has, big, at) =
      let (run', has', big') =
        np_free-IsLarge os heap base max laws s.world s.large s.big l has big (s.threads k)
          (v.thread k).same_max h bytes e in
      subst
        (λ x.
          Yields
            (λ ((w, r), tp). IsStanding os heap commits base laws sizes table max record s {
              world = w;
              large = r;
              threads = update s.threads k tp;
              big = update s.big h none;
            })
            x)
        (sym run' ∙ run)
        (
          pools,
          b,
          update l h 0,
          subst (λ f. IsProcess os sizes table max s.world f s.asked pools b)
              (sym (same_threads s.threads k (s.threads k) refl)) v,
          has',
          big',
          at,
        )
  step-IsStanding s _ (writes h bytes m (inl e) same) fit (pools, b, l, v, has, big, at) = (
    pools,
    b,
    l,
    written-IsProcess os heap commits base laws sizes table max s.world s.threads s.asked pools b h
        bytes m v e same,
    has,
    apart-IsLarge os heap commits base laws sizes table max s.world (with_memory s.world m) s.large
        s.big l has big at
        (λ y out. same y (
          omega (
            arith,
            out,
            in_reservation os heap commits base laws sizes table max s.world s.threads s.asked pools
                b h bytes v e,
          ))),
    at,
  )
  step-IsStanding s _ (writes h bytes m (inr e) same) fit (pools, b, l, v, has, big, at) = (
    pools,
    b,
    l,
    foreign-IsProcess os heap commits base laws sizes table max s.world (with_memory s.world m)
        s.threads s.asked pools b (user_pointer h) bytes v at refl
        (user-Apart h bytes base
          (large_placed os heap base max laws s.world s.large s.big l has big h bytes e).0)
        same,
    has,
    written-IsLarge os heap base max laws s.world s.large s.big l has big h bytes m e same,
    at,
  )

  pub reach-IsStanding :
      (s s' : State os heap commits base laws sizes table max)
      (r : Reach os heap commits base laws sizes table max s s')
      → Fits os heap commits base laws sizes table max r
      → IsStanding os heap commits base laws sizes table max s
      → IsStanding os heap commits base laws sizes table max s'
  reach-IsStanding s _ here fits k = k
  reach-IsStanding s _ (then {a} {b} r step) (fits, fit) k =
      step-IsStanding a b step fit (reach-IsStanding s a r fits k)
