-- ===== src/Process/Persist.antt =====
-- What the program has written stays, over whole runs.
use np_alloc.Prelude.{
  ℕ, ◌+◌, ◌≤◌, ◌<◌, ◌≡◌, ◌≢◌, ◌==◌, refl, ap, sym, subst, ◌∙◌, Bool, false, Option, none, some,
  arith, inl, inr, Bool-cases, ==_iff,
}
use np_alloc.LfStack.{Ptr}
use np_alloc.Mmap.{Os, ok}
use np_alloc.TlsPsPool.{World}
use np_alloc.ThreadLocalPool.{Heap, ThreadPool, np_free, user_pointer}
use np_alloc.ThreadLocalPool.Sizes.{sizes}
use np_alloc.Allocator.Supply.{Commits, Yields}
use np_alloc.Process.Large.{HeapLaws}
use np_alloc.Process.Runs.{
  State, Step, Reach, IsStanding, here, then, wraps, Fits, allocates, allocates_large,
  allocates_wrapped, releases, releases_large, writes,
}
use np_alloc.Process.Writes.{user_pointer_injective}
use np_alloc.Process.Steps.{FromPool, FromMalloc, pool-Yields, malloc-Yields, reach-IsStanding}
use np_alloc.Process.Fresh.{Owns, small_IsFresh, large_IsFresh, free-Owns, owned-Apart}

-- A block with no bytes of the program is another one.
other_block :
    (f : Ptr → Option ℕ) (p h h' n : ℕ) → f p ≡ some n → h ≡ h' → f h' ≡ none → (h == p) ≡ false
other_block f p h h' n e same new = elim (Bool-cases (h == p)) [
  | inl y ↦
      let at : some n ≡ none = sym e ∙ ap f (sym ((==_iff h p).0 y) ∙ same) ∙ new in absurd (cc)
  | inr z ↦ z
]

module _ (os : Os) (heap : Heap) (commits : Commits os) (base : ℕ) (laws : HeapLaws heap base)
    (table : ℕ → Option ℕ) where
  abbrev pub Process : Type 0
  Process = State os heap commits base laws sizes table 8256

  -- A step that frees the block `p`, or writes to it.
  abbrev pub touches :
      (p : Ptr) {a b : State os heap commits base laws sizes table 8256}
      → Step os heap commits base laws sizes table 8256 a b
      → Bool
  touches p (allocates k bytes file line thread_id h w r tp small run) = false
  touches p (allocates_large k bytes file line thread_id h w r tp above room run) = false
  touches p (allocates_wrapped k bytes file line thread_id h w r tp above below run) = false
  touches p (releases k h bytes w r tp e run) = h == p
  touches p (releases_large k h bytes w r tp e run) = h == p
  touches p (writes h bytes m own same) = h == p

  -- No step of the run does.
  abbrev pub Spares :
      (p : Ptr) {a b : State os heap commits base laws sizes table 8256}
      → Reach os heap commits base laws sizes table 8256 a b
      → Type 0
  Spares p here = Unit
  Spares p (then r step) = Spares p r × (touches p step ≡ false)

  abbrev pub Keeps : (p n : ℕ) → Process → Process → Type 0
  Keeps p n a b =
      Owns b p n
      × ((y : ℕ)
          → user_pointer p ≤ y
          → y < user_pointer p + n
          → b.world.memory y ≡ a.world.memory y)

  freed :
      (a : Process) (k h bytes : ℕ) (w : World os) (r : heap.State) (tp : ThreadPool) (p n : ℕ)
      → IsStanding os heap commits base laws sizes table 8256 a
      → Owns a h bytes
      → np_free os heap false a.world a.large (a.threads k) (user_pointer h) ≡ ok ((w, r), tp)
      → (h == p) ≡ false
      → Owns a p n
      → (y : ℕ) → user_pointer p ≤ y
      → y < user_pointer p + n
      → w.memory y ≡ a.world.memory y
  freed a k h bytes w r tp p n standing mine run t own =
      let (w', r', tp', run', keeps) =
        free-Owns os heap commits base laws table a standing k h bytes mine in
      subst
        (λ x.
          Yields
            (λ ((w, r), tp).
              (y : ℕ) → user_pointer p ≤ y → y < user_pointer p + n → w.memory y ≡ a.world.memory y)
            x)
        (sym run' ∙ run) (λ y lo hi. keeps p n y own (λ z. ground (arith, z, t)) lo hi)

  step-Keeps :
      (a b : Process) (step : Step os heap commits base laws sizes table 8256 a b) (p n : ℕ)
      → IsStanding os heap commits base laws sizes table 8256 a
      → wraps os heap commits base laws sizes table 8256 step ≡ false
      → touches p step ≡ false
      → Owns a p n
      → Keeps p n a b
  step-Keeps a _ (allocates k bytes file line thread_id h w r tp small run) p n standing fit t own =
      let (pools, b, l, v, has, big, at) = standing in
      let (h', eq, same, allocated) =
        subst (λ x. Yields (FromPool os heap commits base laws sizes table 8256 a k bytes) x) run
          (pool-Yields os heap commits base laws sizes table 8256 a pools b k bytes file line
            thread_id v small) in
      (
        elim own [
          | inl e ↦
              let ne =
                other_block a.asked p h h' n e (user_pointer_injective h h' eq) allocated.0 in
              inl (rw ne e)
          | inr e ↦ inr e
        ],
        (small_IsFresh os heap commits base laws table a standing k h' bytes w tp allocated p n
            own).1,
      )
  step-Keeps a _ (allocates_large k bytes file line thread_id h w r tp above room run) p n standing
        fit t own =
      let (pools, b, l, v, has, big, at) = standing in
      let (h', eq, same_tp, out, same, fixed, new, (l', has', big')) =
        subst (λ x. Yields (FromMalloc os heap commits base laws sizes table 8256 a l k bytes) x)
          run
          (malloc-Yields os heap commits base laws sizes table 8256 a l k bytes file line thread_id
            has big (v.thread k).same_max above room) in
      (
        elim own [
          | inl e ↦ inl e
          | inr e ↦
              let ne = other_block a.big p h h' n e (user_pointer_injective h h' eq) new in
              inr (rw ne e)
        ],
        (large_IsFresh os heap commits base laws table a standing h' bytes w r l l' new out same
            has' big' p n own).1,
      )
  step-Keeps a _ (allocates_wrapped k bytes file line thread_id h w r tp above below run) p n
        standing fit t own =
      absurd (cc)
  step-Keeps a _ (releases k h bytes w r tp e run) p n standing fit t own = (
    elim own [ inl f ↦ inl (rw t f) | inr f ↦ inr f ],
    freed a k h bytes w r tp p n standing (inl e) run t own,
  )
  step-Keeps a _ (releases_large k h bytes w r tp e run) p n standing fit t own = (
    elim own [ inl f ↦ inl f | inr f ↦ inr (rw t f) ],
    freed a k h bytes w r tp p n standing (inr e) run t own,
  )
  step-Keeps a _ (writes h bytes m mine same) p n standing fit t own =
      let ne : p ≢ h = λ z. ground (arith, z, t) in
      (
        own,
        λ y lo hi. same y (
            omega (
              arith,
              lo,
              hi,
              owned-Apart os heap commits base laws table a standing p h n bytes own mine ne,
            )),
      )

  pub reach-Keeps :
      (a b : Process) (r : Reach os heap commits base laws sizes table 8256 a b) (p n : ℕ)
      → IsStanding os heap commits base laws sizes table 8256 a
      → Fits os heap commits base laws sizes table 8256 r
      → Spares p r
      → Owns a p n
      → Keeps p n a b
  reach-Keeps a _ here p n standing fits spares own = (own, λ y lo hi. refl)
  reach-Keeps a _ (then {a = c} {b = b} r step) p n standing (fits, fit) (spares, t) own =
      let (own', kept) = reach-Keeps a c r p n standing fits spares own in
      let (own'', kept') =
        step-Keeps c b step p n
          (reach-IsStanding os heap commits base laws sizes table 8256 a c r fits standing) fit t
          own' in
      (own'', λ y lo hi. kept' y lo hi ∙ kept y lo hi)
