-- ===== src/Allocator/Supply.antt =====
-- What the global pool gives: where the new chunk lies, when there is one, and when there is none.
use np_alloc.Prelude.{
  ℕ, suc, ◌+◌, ◌%◌, ◌^◌, ◌≡◌, ◌==◌, ◌⊎◌, refl, subst, Bool, true, false, List, [], ◌∷◌, arith, not,
  dec_lt, inl, inr, Bool-cases,
}
use np_alloc.Memory.{Memory}
use np_alloc.LfStack.{Ptr, update}
use np_alloc.LfStack.Solo.{pop}
use np_alloc.Mmap.{
  Mmap, Os, Result, ok, aborted, fault, ◌>>=◌, assert, free_list, result, alloc_chunk,
  alloc_chunk_from_new, get_chunk_index, get_chunk_ptr, virtual_alloc, no_index,
}
use np_alloc.Mmap.Chunks.{mib, chunk}
use np_alloc.Mmap.Chunks as Chunks
use np_alloc.Mmap.Alloc.{alloc_chunk-free, alloc_chunk-new}
use np_alloc.Mmap.Bounds.{alloc_chunk_exhausted}

-- `P` holds of what a call returns, if it returns.
abbrev pub Yields {ℓ} : {A : Type ℓ} (P : A → Type 0) → Result A → Type 0
Yields P (ok a) = P a
Yields P aborted = Unit
Yields P fault = Unit

pub Yields-bind {ℓ κ} :
    {A : Type ℓ} {B : Type κ} (P : B → Type 0) (r : Result A) (f : A → Result B)
    → ((a : A) → Yields P (f a))
    → Yields P (r >>= f)
Yields-bind P (ok a) f h = h a
Yields-bind P aborted f h = tt
Yields-bind P fault f h = tt

module _ (os : Os) (nd : Bool) where
  abbrev At : ℕ → ℕ × Mmap × os.State → Type 0
  At base r = r.1.ptr ≡ base

  from_new-ptr : (mm : Mmap) (s : os.State) → Yields (At mm.ptr) (alloc_chunk_from_new os nd mm s)
  unfolding alloc_chunk_from_new
  from_new-ptr mm s = elim (Bool-cases (mm.head == 0)) [
    | inl e ↦ rw e refl
    | inr e ↦ rw e (
        Yields-bind (At mm.ptr) (get_chunk_index nd mm mm.head) _ λ i.
          Yields-bind (At mm.ptr) (assert nd (not (i == no_index))) _ λ _.
            Yields-bind (At mm.ptr) (get_chunk_ptr nd mm ((i + 1) % 2 ^ 64)) _ λ q.
              Yields-bind (At mm.ptr)
                (assert nd (not ((virtual_alloc os s mm.head mm.chunk_size).0 == 0))) _
                λ _.
                  Yields-bind (At mm.ptr)
                    (get_chunk_index nd mm (virtual_alloc os s mm.head mm.chunk_size).0) _
                    λ _. refl)
  ]

  -- The reservation stays where it is.
  alloc_chunk-ptr :
      (m : Memory) (mm : Mmap) (s : os.State) → Yields (At mm.ptr) (alloc_chunk os nd m mm s)
  unfolding alloc_chunk
  alloc_chunk-ptr m mm s =
      let (shared, pc) = pop (free_list m mm) in
      elim (Bool-cases (result pc == 0)) [
        | inl e ↦ rw e (from_new-ptr (record mm { free_head = shared.head }) s)
        | inr e ↦ rw e (
            Yields-bind (At mm.ptr)
              (get_chunk_index nd (record mm { free_head = shared.head }) (result pc)) _ λ _. refl)
      ]

-- The pages of a chunk can be committed.
abbrev pub Commits : Os → Type 0
Commits os = (s : os.State) (a : ℕ) → (s' : os.State) × (virtual_alloc os s a mib ≡ (a, s'))

-- The chunk `d` is new, and the global pool knows that it is in use.
abbrev pub Gives :
    (os : Os) (m : Memory) (mm : Mmap) (given : Ptr → Bool) (d : Ptr) (mm' : Mmap) (s' : os.State)
    → (made : ℕ) (waiting : List Ptr) → Type 0
Gives os m mm given d mm' s' made waiting =
    Chunks.IsPool m mm' made waiting (update given d true) × (given d ≡ false) × (mm'.ptr ≡ mm.ptr)

module _ (os : Os) (commits : Commits os) where
  keeps :
      (m : Memory) (mm : Mmap) (s : os.State) {r : ℕ × Mmap × os.State}
      → alloc_chunk os false m mm s ≡ ok r
      → r.1.ptr ≡ mm.ptr
  keeps m mm s run =
      subst (λ r. Yields (At os false mm.ptr) r) run (alloc_chunk-ptr os false m mm s)

  -- `alloc_chunk` gives a chunk, or fails once 4096 are in use.
  pub alloc_chunk-Gives :
      (m : Memory) (mm : Mmap) (n : ℕ) (l : List Ptr) (given : Ptr → Bool) (s : os.State)
      → Chunks.IsPool m mm n l given
      → ((d : Ptr) × (mm' : Mmap) × (s' : os.State) × (made : ℕ) × (waiting : List Ptr)
          × (alloc_chunk os false m mm s ≡ ok (d, mm', s'))
          × Gives os m mm given d mm' s' made waiting)
        ⊎ ((n ≡ 4096) × (l ≡ []) × (alloc_chunk os false m mm s ≡ aborted))
  alloc_chunk-Gives m mm n (q ∷ l) given s v =
      let (mm', run, pool, new) = alloc_chunk-free v os false s q l refl in
      inl (q, mm', s, n, l, run, (pool, new, keeps m mm s run))
  alloc_chunk-Gives m mm n [] given s v = elim (dec_lt n 4096) [
    | yes lt ↦
        let (s', granted) = commits s (chunk mm n) in
        let (mm', run, pool, new) = alloc_chunk-new v os false s s' refl lt granted in
        inl (chunk mm n, mm', s', suc n, [], run, (pool, new, keeps m mm s run))
    | no ge ↦
        let full : n ≡ 4096 = omega (arith, v.few) in
        inr (
          full,
          refl,
          alloc_chunk_exhausted (subst (λ x. Chunks.IsPool m mm x [] given) full v) os s,
        )
  ]
