-- ===== src/Mmap/Alloc.antt =====
-- `alloc_chunk`: a chunk that is not in use, from the free list or from new address space.
use np_alloc.Prelude.{
  ℕ, suc, ◌+◌, ◌%◌, ◌^◌, ◌<◌, ◌≡◌, ◌≢◌, ◌==◌, inl, inr, refl, sym, subst, ◌∙◌, Bool, true, false,
  List, [], ◌∷◌, arith, Bool-cases, ==_iff,
}
use np_alloc.Memory.{Memory, read64}
use np_alloc.LfStack.{Ptr, null, Head, head_t, next_aba, update}
use np_alloc.LfStack.Chain.{Chain}
use np_alloc.LfStack.Solo.{without, pop_lem, pop_empty}
use np_alloc.Mmap.{
  Mmap, ok, Os, free_list, get_chunk_index, alloc_chunk, alloc_chunk_from_new, virtual_alloc,
}
use np_alloc.Mmap.Chunks.{mib, chunk, IsPlaced, IsPool, index_of, ptr_of}

-- A new chunk, where the operating system commits its pages.
from_new :
    (os : Os) (nd : Bool) (mm : Mmap) (n : ℕ) (s s' : os.State)
    → IsPlaced mm
    → mm.head ≡ chunk mm n
    → n < 4096
    → virtual_alloc os s (chunk mm n) mib ≡ (chunk mm n, s')
    → alloc_chunk_from_new os nd mm s
      ≡ ok (
        chunk mm n,
        record mm { head = chunk mm (n + 1); perf_alloc = (mm.perf_alloc + 1) % 2 ^ 64 },
        s',
      )
unfolding alloc_chunk_from_new
from_new os nd mm n s s' at top lt granted =
    let i = index_of nd mm n at (omega arith) in
    let p = ptr_of nd mm (n + 1) at (omega arith) in
    let step : (n + 1) % 2 ^ 64 ≡ n + 1 = omega arith in
    let there : mm.head ≢ 0 = omega (arith, at.base) in
    let unit = at.unit in ground (arith, i, p, step, granted, at.base)

module _ {m : Memory} {mm : Mmap} {n : ℕ} {l : List Ptr} {given : Ptr → Bool}
    (v : IsPool m mm n l given) where
  -- Where the free list is not empty, `alloc_chunk` takes its first chunk.
  pub alloc_chunk-free :
      (os : Os) (ndebug : Bool) (s : os.State) (q : Ptr) (l' : List Ptr)
      → l ≡ q ∷ l'
      → (mm' : Mmap) × (alloc_chunk os ndebug m mm s ≡ ok (q, mm', s))
        × IsPool m mm' n l' (update given q true)
        × (given q ≡ false)
  unfolding alloc_chunk
  alloc_chunk-free os nd s q l' e = (
    mm',
    taken,
    record {
      placed = record { base = v.placed.base; room = v.placed.room; unit = v.placed.unit };
      few = v.few;
      top = v.top;
      chain = subst (λ x. Chain (read64 m) (read64 m x) l') (sym c.0) c.3;
      free = λ r h. v.free r (rw e (ground arith));
      used = λ r h. elim (Bool-cases (q == r)) [
        | inl same ↦ v.free r (rw e (ground arith))
        | inr other ↦ v.used r (ground arith)
      ];
      apart = λ r h. ground (arith, v.apart r, c.2, e);
      covered = λ i lt. ground (arith, v.covered i lt, e);
    },
    ground (arith, v.apart q, e),
  )
    where
      c : Chain (read64 m) mm.free_head.ptr (q ∷ l')
      c = subst (λ x. Chain (read64 m) mm.free_head.ptr x) e v.chain

      live : mm.free_head.ptr ≢ null
      live z = c.1 (sym c.0 ∙ z)

      mm' : Mmap
      mm' = record mm {
        free_head = (without (free_list m mm)).head;
        perf_alloc_from_free = (mm.perf_alloc_from_free + 1) % 2 ^ 64;
      }

      index : (i : ℕ) × ((h : Head) → get_chunk_index nd (record mm { free_head = h }) q ≡ ok i)
      index =
          let (i, lt, f) = v.free q (rw e (ground arith)) in
          (
            i,
            λ h.
                subst (λ x. get_chunk_index nd (record mm { free_head = h }) x ≡ ok i) (sym f)
                  (index_of nd (record mm { free_head = h }) i
                    (record { base = v.placed.base; room = v.placed.room; unit = v.placed.unit })
                    (omega (arith, v.few))),
          )

      taken : alloc_chunk os nd m mm s ≡ ok (q, mm', s)
      taken =
          let off : (q == 0) ≡ false = ground arith in
          rw (pop_lem (free_list m mm) live)
            (rw (c.0) (rw off (rw (index.1 (head_t (next_aba mm.free_head) (read64 m q))))))

  -- Where it is empty, and fewer than 4096 chunks have been made, `alloc_chunk` makes the next one,
  -- if the operating system commits its pages.
  pub alloc_chunk-new :
      (os : Os) (ndebug : Bool) (s s' : os.State)
      → l ≡ []
      → n < 4096
      → virtual_alloc os s (chunk mm n) mib ≡ (chunk mm n, s')
      → (mm' : Mmap) × (alloc_chunk os ndebug m mm s ≡ ok (chunk mm n, mm', s'))
        × IsPool m mm' (suc n) [] (update given (chunk mm n) true)
        × (given (chunk mm n) ≡ false)
  unfolding alloc_chunk
  alloc_chunk-new os nd s s' e lt granted = (
    mm',
    made,
    record {
      placed = record { base = v.placed.base; room = v.placed.room; unit = v.placed.unit };
      few = lt;
      top = omega arith;
      chain = subst (λ x. Chain (read64 m) mm.free_head.ptr x) e v.chain;
      free = λ r h. cc;
      used = λ r h. elim (Bool-cases (chunk mm n == r)) [
        | inl same ↦ (n, omega arith, sym ((==_iff (chunk mm n) r).0 same))
        | inr other ↦ let (i, below, f) = v.used r (ground arith) in (i, omega arith, f)
      ];
      apart = λ r h. refl;
      covered = λ i below. inr (every i below);
    },
    fresh,
  )
    where
      mm' : Mmap
      mm' = record mm { head = chunk mm (n + 1); perf_alloc = (mm.perf_alloc + 1) % 2 ^ 64 }

      fresh : given (chunk mm n) ≡ false
      fresh = elim (Bool-cases (given (chunk mm n))) [
        | inl t ↦ let (i, below, f) = v.used (chunk mm n) t in absurd (omega arith)
        | inr f ↦ f
      ]

      every : (i : ℕ) → i < suc n → update given (chunk mm n) true (chunk mm i) ≡ true
      every i below = ground (arith, v.covered i, e)

      empty : mm.free_head.ptr ≡ null
      empty = subst (λ x. Chain (read64 m) mm.free_head.ptr x) e v.chain

      made : alloc_chunk os nd m mm s ≡ ok (chunk mm n, mm', s')
      made =
          rw (pop_empty (free_list m mm) empty)
            (ground (arith, empty, from_new os nd mm n s s' v.placed v.top lt granted))
