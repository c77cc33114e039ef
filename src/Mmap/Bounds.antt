-- ===== src/Mmap/Bounds.antt =====
-- Where new chunks lie, against the size of the reservation.
use np_alloc.Prelude.{ℕ, ◌*◌, ◌≤◌, ◌<◌, ◌≡◌, refl, Bool, false, [], arith, ltb}
use np_alloc.Memory.{Memory}
use np_alloc.LfStack.{Ptr}
use np_alloc.LfStack.Solo.{pop_empty}
use np_alloc.Mmap.{
  Mmap, ok, aborted, Os, free_list, validate_ptr, get_chunk_ptr, alloc_chunk, alloc_chunk_from_new,
  virtual_alloc,
}
use np_alloc.Mmap.Chunks.{mib, chunk, IsPlaced, IsPool, index_of}
use np_alloc.Mmap.Alloc.{alloc_chunk-new}

-- A chunk counts as inside the reservation exactly when its offset is below the reserved size.
pub validate_ptr-chunk :
    (ndebug : Bool) (mm : Mmap) (i : ℕ)
    → IsPlaced mm
    → mm.size ≤ 4096 * mib
    → i ≤ 4096
    → validate_ptr ndebug mm (chunk mm i) ≡ ok (ltb (i * mib) mm.size)
unfolding validate_ptr
validate_ptr-chunk nd mm i at small le = ground (arith, at.base, at.room)

-- Once the chunks fill a reservation of fewer than 4096 chunks and none is free, `alloc_chunk` hands
-- out a chunk outside the reservation, if the operating system commits pages there.
pub alloc_chunk_overrun :
    {m : Memory} {mm : Mmap} {n : ℕ} {given : Ptr → Bool}
    → IsPool m mm n [] given
    → (os : Os) (ndebug : Bool) (s s' : os.State) → n < 4096
    → mm.size ≡ n * mib
    → virtual_alloc os s (chunk mm n) mib ≡ (chunk mm n, s')
    → (mm' : Mmap) × (alloc_chunk os ndebug m mm s ≡ ok (chunk mm n, mm', s'))
      × (validate_ptr ndebug mm (chunk mm n) ≡ ok false)
alloc_chunk_overrun {mm} {n} v os nd s s' lt full granted =
    let (mm', made, pool, fresh) = alloc_chunk-new v os nd s s' refl lt granted in
    (mm', made, ground (arith, validate_ptr-chunk nd mm n v.placed))

-- Once all 4096 chunks are in use, `alloc_chunk` fails an assertion.
pub alloc_chunk_exhausted :
    {m : Memory} {mm : Mmap} {given : Ptr → Bool}
    → IsPool m mm 4096 [] given
    → (os : Os) (s : os.State) → alloc_chunk os false m mm s ≡ aborted
unfolding alloc_chunk
alloc_chunk_exhausted {m} {mm} v os s =
    rw (pop_empty (free_list m mm) v.chain) (ground (arith, v.chain, from_end))
  where
    past : get_chunk_ptr false mm 4097 ≡ aborted
    past = unfold get_chunk_ptr in refl

    from_end : alloc_chunk_from_new os false mm s ≡ aborted
    from_end =
        unfold alloc_chunk_from_new in
        ground (arith, index_of false mm 4096 v.placed, past, v.top, v.placed.base)
