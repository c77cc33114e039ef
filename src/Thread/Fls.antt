-- ===== src/Thread/Fls.antt =====
-- src/np_thread.cpp, the branch for Microsoft's compiler: `thread_atexit` over `FlsAlloc`, which is
-- a parameter. Each thread asks for an index of its own, and no index is ever freed.
use np_alloc.Prelude.{
  ℕ, zero, suc, ◌+◌, ◌≡◌, min, refl, ap, List, [], ◌∷◌, Option, none, some, length, arith,
}
use np_alloc.Thread.{CallList, add, invoke, invoke-add_all, add_all}
use np_alloc.Thread.Exit.{caller_of}

-- `FlsAlloc(&_fls_callback)`: `none` is `FLS_OUT_OF_INDEXES`, for which `FlsSetValue` stores nothing.
pub record Fls : Type 1 where
  pub State : Type 0
  pub fls_alloc : State → Option ℕ × State

-- `tls_caller`, and the index that holds it.
pub record FlsTls : Type 0 where
  pub caller : Option CallList
  pub index : Option ℕ

abbrev pub new_fls_thread : FlsTls
new_fls_thread = record { caller = none; index = none }

module _ (fls : Fls) where
  unfoldable pub fls_atexit :
      fls.State → (caller : Option CallList) → (index f : Option ℕ) → FlsTls × fls.State
  fls_atexit s none index f =
      let (index', s') = fls.fls_alloc s in
      (record { caller = some (add [] f); index = index' }, s')
  fls_atexit s (some l) index f = (record { caller = some (add l f); index = index }, s)

  -- Windows calls `_fls_callback` at the thread's end for a value that is stored under an index.
  unfoldable pub fls_callback : (adds : ℕ → List (Option ℕ)) → (fuel : ℕ) → FlsTls → Option (List ℕ)
  fls_callback adds fuel t = elim t.index [
    | none ↦ some []
    | some i ↦ invoke adds fuel (caller_of t.caller)
  ]

  -- A thread that registers the callback 0: what runs at its end.
  unfoldable pub fls_thread : (adds : ℕ → List (Option ℕ)) → fls.State → Option (List ℕ) × fls.State
  unfolding fls_atexit fls_callback
  fls_thread adds s =
      let (t, s') = fls_atexit s new_fls_thread.caller new_fls_thread.index (some 0) in
      (fls_callback adds 1 t, s')

  -- `n` such threads, one after another: how many of the callbacks run.
  unfoldable pub fls_deleted_count : (adds : ℕ → List (Option ℕ)) → (n : ℕ) → fls.State → Option ℕ
  fls_deleted_count adds zero s = some 0
  fls_deleted_count adds (suc n) s =
      let (called, s') = fls_thread adds s in
      let rest = fls_deleted_count adds n s' in
      elim called [
        | none ↦ none
        | some l ↦ elim rest [ none ↦ none | some c ↦ some (length l + c) ]
      ]

-- What the documentation says of `FlsAlloc`: there is a number of indices left, and each call takes
-- one until none is left.
pub record Limited (fls : Fls) : Type 0 where
  pub left : fls.State → ℕ
  pub takes :
      (s : fls.State) (n : ℕ)
      → left s ≡ suc n
      → (i : ℕ) × ((fls.fls_alloc s).0 ≡ some i) × (left (fls.fls_alloc s).1 ≡ n)
  pub empty :
      (s : fls.State) → left s ≡ 0 → ((fls.fls_alloc s).0 ≡ none) × (left (fls.fls_alloc s).1 ≡ 0)

module _ (fls : Fls) (limited : Limited fls) (adds : ℕ → List (Option ℕ))
    (quiet : (f : ℕ) → adds f ≡ []) where
  open limited use {left, takes, empty}

  one_callback : invoke adds 1 (0 ∷ []) ≡ some (0 ∷ [])
  unfolding add_all
  one_callback = invoke-add_all adds 1 (some 0 ∷ []) quiet (omega arith)

  thread_with :
      (s : fls.State) (i : ℕ)
      → (fls.fls_alloc s).0 ≡ some i
      → fls_thread fls adds s ≡ (some (0 ∷ []), (fls.fls_alloc s).1)
  unfolding fls_thread fls_atexit fls_callback add
  thread_with s i e = rw e (ap (λ r. (r, (fls.fls_alloc s).1)) one_callback)

  thread_without :
      (s : fls.State)
      → (fls.fls_alloc s).0 ≡ none
      → fls_thread fls adds s ≡ (some [], (fls.fls_alloc s).1)
  unfolding fls_thread fls_atexit fls_callback
  thread_without s e = rw e refl

  one_more :
      (n : ℕ) (s : fls.State)
      → ((s' : fls.State) → fls_deleted_count fls adds n s' ≡ some (min n (left s')))
      → (k : ℕ) → left s ≡ k
      → fls_deleted_count fls adds (suc n) s ≡ some (min (suc n) (left s))
  unfolding fls_deleted_count
  one_more n s rest zero e =
      let (at, still) = empty s e in
      let left_then : left (fls_thread fls adds s).1 ≡ 0 = rw (thread_without s at) still in
      rw (thread_without s at, fls_deleted_count, rest (fls_thread fls adds s).1)
        (ap some (omega (arith, e, left_then)))
  one_more n s rest (suc k) e =
      let (i, at, now) = takes s k e in
      let left_then : left (fls_thread fls adds s).1 ≡ k = rw (thread_with s i at) now in
      rw (thread_with s i at, fls_deleted_count, rest (fls_thread fls adds s).1)
        (ap some (omega (arith, e, left_then)))

  -- Of `n` threads, only as many as there are indices left run their callbacks at their end; those
  -- of the others never run.
  pub fls_deleted_count_lem :
      (n : ℕ) (s : fls.State) → fls_deleted_count fls adds n s ≡ some (min n (left s))
  unfolding fls_deleted_count
  fls_deleted_count_lem zero s = ap some (omega arith)
  fls_deleted_count_lem (suc n) s = one_more n s (λ s'. fls_deleted_count_lem n s') (left s) refl
