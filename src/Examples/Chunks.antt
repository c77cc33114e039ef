-- ===== src/Examples/Chunks.antt =====
-- The reservation of src/np_mmap.cpp and the pool of src/global_pool.h over a small operating
-- system.
use np_alloc.Prelude.{
  ℕ, ◌⊎◌, ◌+◌, ◌*◌, ◌^◌, ◌<◌, ◌≤◌, ◌≡◌, ◌==◌, ltb, refl, Bool, true, false, [], ◌∷◌, none, some,
  arith, inl, inr, if◌then◌else◌, Bool-cases, ap, ◌&&◌, leb, ◌-◌, ◌/◌, ◌%◌,
}
use np_alloc.LfStack.{Ptr, update}
use np_alloc.Mmap.{
  address_of, Os, Mmap, ok, create, reserve, virtual_alloc, alloc_chunk, free_chunk, validate_ptr,
}
use np_alloc.Mmap.Chunks.{mib, chunk, IsPlaced, IsPool, free_chunk-IsPool}
use np_alloc.Mmap.Alloc.{alloc_chunk-free, alloc_chunk-new}
use np_alloc.Mmap.Bounds.{alloc_chunk_overrun}
use np_alloc.Mmap.Reserve.{LowMaps, reserved, Reserves, reserve-Reserves, reserved-IsPool}
use np_alloc.GlobalPool.{construct}
use np_alloc.GlobalPool.Create.{Outcome, construct-Outcome}

-- It maps up to 256 MB, at 4 GB, and commits every page.
abbrev pub os : Os
os = record {
  State = Unit {0};
  map_none = λ s hint size. (if ltb (256 * mib) size then none else some (2 ^ 32), s);
  protect = λ s address size. (true, s);
  map_fixed = λ s address size. (none, s);
  dont_need = λ s address size. (true, s);
  unmap = λ s address size. s;
  page_size = 4096;
}

os-LowMaps : LowMaps os
os-LowMaps s s' hint size v e = elim (Bool-cases (ltb (256 * mib) size)) [
  | inl large ↦ ground (arith, large, ap (λ r. address_of r.0) e)
  | inr small ↦ ground (arith, small, ap (λ r. address_of r.0) e)
]

reserve-Reserves_example : Reserves os (create 4096) tt mib (reserve os (create 4096) tt mib)
unfolding create
reserve-Reserves_example = reserve-Reserves os os-LowMaps (create 4096) tt mib refl

-- A reservation of `size` bytes.
abbrev pub place : ℕ → Mmap
place size = reserved (create 4096) (2 ^ 32) size

place-IsPool : IsPool (λ x. 0) (reserved (create 4096) (2 ^ 32) mib) 0 [] (λ p. false)
place-IsPool = reserved-IsPool (λ x. 0) 4096 (2 ^ 32) mib (omega arith) (omega arith)

pub place-IsPlaced : (size : ℕ) → IsPlaced (place size)
unfolding create
place-IsPlaced size = record { base = omega arith; room = omega arith; unit = refl }

construct-Outcome_example : Outcome os tt (construct os tt)
construct-Outcome_example = construct-Outcome os os-LowMaps tt

commits : (a : ℕ) → virtual_alloc os tt a mib ≡ (a, tt)
unfolding virtual_alloc
commits a = refl

-- No chunk yet.
alloc_chunk-new_example :
    (mm' : Mmap) × (alloc_chunk os false (λ x. 0) (place mib) tt
      ≡ ok (chunk (place mib) 0, mm', tt))
    × IsPool (λ x. 0) mm' 1 [] (update (λ p. false) (chunk (place mib) 0) true)
    × (false ≡ false)
alloc_chunk-new_example =
    alloc_chunk-new place-IsPool os false tt tt refl (omega arith) (commits (chunk (place mib) 0))

-- The first `n` chunks are in use.
abbrev pub first_chunks : ℕ → Ptr → Bool
first_chunks n p = leb (2 ^ 32) p && (((p - 2 ^ 32) % mib == 0) && ltb p (2 ^ 32 + n * mib))

abbrev pub full : ℕ → Mmap
full n = record (place (n * mib)) { head = 2 ^ 32 + n * mib }

pub full-IsPool : (n : ℕ) → n ≤ 4096 → IsPool (λ x. 0) (full n) n [] (first_chunks n)
unfolding create
full-IsPool n few = record {
  placed = record { base = omega arith; room = omega arith; unit = refl };
  few = few;
  top = refl;
  chain = refl;
  free = λ p h. absurd (ground arith);
  used = λ p h.
      let lo : 2 ^ 32 ≤ p = ground arith in
      let step : (p - 2 ^ 32) % mib ≡ 0 = ground arith in
      let hi : p < 2 ^ 32 + n * mib = ground arith in
      ((p - 2 ^ 32) / mib, omega arith, omega arith);
  apart = λ p h. refl;
  covered = λ i lt. inr (ground (arith, at i n lt));
}
  where
    at :
        (i n : ℕ)
        → i < n
        → (2 ^ 32 ≤ 2 ^ 32 + i * mib)
          × ((2 ^ 32 + i * mib - 2 ^ 32) % mib ≡ 0)
          × (2 ^ 32 + i * mib < 2 ^ 32 + n * mib)
    at i n lt = (omega arith, omega arith, omega arith)

alloc_chunk_overrun_example :
    (mm' : Mmap) × (alloc_chunk os false (λ x. 0) (full 64) tt ≡ ok (chunk (full 64) 64, mm', tt))
    × (validate_ptr false (full 64) (chunk (full 64) 64) ≡ ok false)
alloc_chunk_overrun_example =
    alloc_chunk_overrun (full-IsPool 64 (omega arith)) os false tt tt (omega arith) refl
      (commits (chunk (full 64) 64))

free_chunk-IsPool_example :
    IsPool
      (free_chunk (λ x. 0) (full 2) (2 ^ 32)).0
      (free_chunk (λ x. 0) (full 2) (2 ^ 32)).1
      2
      (2 ^ 32 ∷ [])
      (update (first_chunks 2) (2 ^ 32) false)
    × ((x : ℕ) → (x < 2 ^ 32) ⊎ (2 ^ 32 + 8 ≤ x) → (free_chunk (λ y. 0) (full 2) (2 ^ 32)).0 x ≡ 0)
free_chunk-IsPool_example = free_chunk-IsPool (full-IsPool 2 (omega arith)) (2 ^ 32) refl

alloc_chunk-free_example :
    (mm' : Mmap) × (alloc_chunk os false
        (free_chunk (λ x. 0) (full 2) (2 ^ 32)).0
        (free_chunk (λ x. 0) (full 2) (2 ^ 32)).1
        tt
      ≡ ok (2 ^ 32, mm', tt))
    × IsPool
        (free_chunk (λ x. 0) (full 2) (2 ^ 32)).0
        mm'
        2
        []
        (update (update (first_chunks 2) (2 ^ 32) false) (2 ^ 32) true)
    × (update (first_chunks 2) (2 ^ 32) false (2 ^ 32) ≡ false)
alloc_chunk-free_example =
    alloc_chunk-free (free_chunk-IsPool (full-IsPool 2 (omega arith)) (2 ^ 32) refl).0 os false tt
      (2 ^ 32) [] refl
