-- ===== src/Mmap/Windows.antt =====
-- src/np_mmap.cpp, the branch for Microsoft's compiler: the same reservation over `VirtualAlloc` and
-- `VirtualFree`, which are a parameter.
use np_alloc.Prelude.{
  ℕ, zero, suc, ◌+◌, ◌*◌, ◌≡◌, ◌≢◌, ◌==◌, ltb, refl, Bool, true, false, List, ◌∷◌, if◌then◌else◌,
  arith, Bool-cases, inl, inr, ==_iff, ◌⊎◌,
}
use np_alloc.Bitset.Large as Large
use np_alloc.Mmap.{Mmap, create}

-- The kinds of request of `VirtualAlloc` and `VirtualFree`, the calls, and the page size that
-- `GetSystemInfo` gives.
pub record Api : Type 1 where
  pub State : Type 0
  pub alloc_reserve : State → (address size : ℕ) → ℕ × State
  pub alloc_commit : State → (address size : ℕ) → ℕ × State
  pub free_decommit : State → (address size : ℕ) → Bool × State
  pub free_release : State → (address size : ℕ) → Bool × State
  pub page_size : ℕ

module _ (api : Api) where
  open api use {State, alloc_reserve, alloc_commit, free_decommit, free_release, page_size}

  unfoldable pub virtual_reserve : State → (hint size : ℕ) → ℕ × State
  virtual_reserve s hint size = alloc_reserve s hint size

  unfoldable pub virtual_release : State → ℕ → Bool × State
  virtual_release s p = free_release s p 0

  unfoldable pub virtual_alloc : State → (address chunk_size : ℕ) → ℕ × State
  virtual_alloc s address chunk_size = alloc_commit s address chunk_size

  unfoldable pub virtual_free : State → (address chunk_size : ℕ) → Bool × State
  virtual_free s address chunk_size = free_decommit s address chunk_size

  -- `init`, in the constructor.
  abbrev pub construct : Mmap
  construct = create page_size

  -- The attempts of `reserve` from number `i` on.
  unfoldable pub reserve_from : (left i : ℕ) → Mmap → State → ℕ → ℕ × Mmap × State
  reserve_from zero i mm s size = (0, mm, s)
  reserve_from (suc left) i mm s size =
      let address = if ltb i 15 then 0x10000000000 * (i + 1) else 0 in
      let (v, s') = virtual_reserve s address size in
      elim (v == 0) [
        | true ↦ reserve_from left (i + 1) mm s' size
        | false ↦ elim (mm.ptr == 0) [
          | true ↦ (
            size,
            record mm {
              ptr = v;
              size = size;
              alloc_chunk_index = Large.clear_all mm.alloc_chunk_index;
              head = v;
            },
            s',
          )
          | false ↦ reserve_from left (i + 1) mm (virtual_release s' v).1 size
        ]
      ]

  unfoldable pub reserve : Mmap → State → ℕ → ℕ × Mmap × State
  reserve mm s size = reserve_from 16 0 mm s size

  -- `~mmap`
  unfoldable pub destroy : Mmap → State → State
  destroy mm s = if mm.ptr == 0 then s else (virtual_release s mm.ptr).1

-- A way to say which reservations a process has: a call that reserves adds what it returns, unless
-- that is null, and releasing a reservation at its address takes it away.
pub record Reservations (api : Api) : Type 1 where
  pub Has : api.State → List ℕ → Type 0
  pub none_made :
      (s : api.State) (l : List ℕ) (address size : ℕ)
      → Has s l
      → (api.alloc_reserve s address size).0 ≡ 0
      → Has (api.alloc_reserve s address size).1 l
  pub made :
      (s : api.State) (l : List ℕ) (address size : ℕ)
      → Has s l
      → (api.alloc_reserve s address size).0 ≢ 0
      → Has (api.alloc_reserve s address size).1 ((api.alloc_reserve s address size).0 ∷ l)
  pub released :
      (s : api.State) (l : List ℕ) (v : ℕ) → Has s (v ∷ l) → Has (api.free_release s v 0).1 l

module _ (api : Api) (book : Reservations api) where
  open book use {Has, none_made, made, released}

  -- What `reserve` leaves: on failure the reservations and the object as they were; on success the
  -- one reservation more that the object had none of before, and now keeps.
  abbrev pub Reserved : List ℕ → Mmap → (size : ℕ) → ℕ × Mmap × api.State → Type 0
  Reserved l mm size (r, mm', s) =
      ((r ≡ 0) × (mm' ≡ mm) × Has s l)
      ⊎ ((r ≡ size)
          × (mm.ptr ≡ 0)
          × (mm'.ptr ≢ 0)
          × (mm'.head ≡ mm'.ptr)
          × (mm'.size ≡ size)
          × Has s (mm'.ptr ∷ l))

  reserve_from-Reserved :
      (left i : ℕ) (mm : Mmap) (s : api.State) (size : ℕ) (l : List ℕ)
      → Has s l
      → Reserved l mm size (reserve_from api left i mm s size)
  unfolding reserve_from virtual_reserve virtual_release
  reserve_from-Reserved zero i mm s size l has = inl (refl, refl, has)
  reserve_from-Reserved (suc left) i mm s size l has =
      let address : ℕ = if ltb i 15 then 0x10000000000 * (i + 1) else 0 in
      let v : ℕ = (api.alloc_reserve s address size).0 in
      let s' : api.State = (api.alloc_reserve s address size).1 in
      elim (Bool-cases (v == 0)) [
        | inl null ↦
            rw (null, reserve_from)
              (reserve_from-Reserved left (i + 1) mm s' size l
                (none_made s l address size has ((==_iff v 0).0 null)))
        | inr some_v ↦
            let ne : v ≢ 0 = λ e. ground (arith, some_v, e) in
            let more : Has s' (v ∷ l) = made s l address size has ne in
            elim (Bool-cases (mm.ptr == 0)) [
              | inl new ↦
                  rw (some_v, new, reserve_from)
                    (inr (refl, (==_iff mm.ptr 0).0 new, ne, refl, refl, more))
              | inr old ↦
                  rw (some_v, old, reserve_from)
                    (reserve_from-Reserved left (i + 1) mm (api.free_release s' v 0).1 size l
                      (released s' l v more))
            ]
      ]

  -- On Windows `reserve` keeps at most one reservation and releases every other one that it is
  -- given: on failure the process has those that it had, and the object is as it was; on success
  -- the object had none, and keeps the only one that is new. `~mmap` then releases that one.
  pub reserve-Reserved :
      (mm : Mmap) (s : api.State) (size : ℕ) (l : List ℕ)
      → Has s l
      → Reserved l mm size (reserve api mm s size)
        × ((mm' : Mmap) (s' : api.State)
            → mm'.ptr ≢ 0
            → Has s' (mm'.ptr ∷ l)
            → Has (destroy api mm' s') l)
  unfolding reserve destroy virtual_release
  reserve-Reserved mm s size l has = (
    reserve_from-Reserved 16 0 mm s size l has,
    λ mm' s' ne has'.
        let kept : (mm'.ptr == 0) ≡ false = ground (arith, ne) in
        rw kept (released s' l mm'.ptr has'),
  )
