-- ===== src/Mmap/Reserve.antt =====
-- `reserve`: either nothing is reserved, or an empty pool of chunks is.
use np_alloc.Prelude.{
  ℕ, zero, suc, ◌+◌, ◌*◌, ◌^◌, ◌<◌, ◌≡◌, ◌==◌, ◌⊎◌, inl, inr, refl, ap, true, false, Option, none,
  some, [], arith, Bool-cases, if◌then◌else◌, ltb,
}
use np_alloc.Memory.{Memory}
use np_alloc.Bitset.Large as Large
use np_alloc.Mmap.{
  Mmap, Os, address_of, create, reserve_from, reserve, virtual_reserve, virtual_release,
}
use np_alloc.Mmap.Chunks.{mib, IsPool}

-- What the code relies on: a mapping is below the end of the address space, with room for all
-- chunks above its start.
abbrev pub LowMaps : Os → Type 0
LowMaps os =
    (s s' : os.State) (hint size v : ℕ)
    → os.map_none s hint size ≡ (some v, s')
    → v + 4097 * mib < 2 ^ 64

-- The reservation of `size` bytes at `v`.
abbrev pub reserved : Mmap → ℕ → ℕ → Mmap
reserved mm v size = record mm {
  ptr = v;
  size = size;
  alloc_chunk_index = Large.clear_all mm.alloc_chunk_index;
  head = v;
}

-- The address that attempt number `i` asks for.
abbrev pub hint : ℕ → ℕ
hint i = if ltb i 15 then 0x10000000000 * (i + 1) else 0

-- The attempts from number `i` on, `left` of them, one after another: all of them fail, or one after
-- some that fail gives a mapping at `v`.
pub data Tries (os : Os) (size : ℕ) : (left i : ℕ) → os.State → Option ℕ → os.State → Type 0 where
  none_left : {i : ℕ} {s : os.State} → Tries os size zero i s none s
  refused :
      {left i : ℕ} {s s' : os.State} {r : Option ℕ}
      → address_of (os.map_none s (hint i) size).0 ≡ 0
      → Tries os size left (i + 1) (os.map_none s (hint i) size).1 r s'
      → Tries os size (suc left) i s r s'
  mapped :
      {left i : ℕ} {s s' : os.State} (v : ℕ)
      → os.map_none s (hint i) size ≡ (some v, s')
      → 0 < v
      → Tries os size (suc left) i s (some v) s'

abbrev ReservesFrom : (os : Os) (left i : ℕ) → Mmap → os.State → ℕ → ℕ × Mmap × os.State → Type 0
ReservesFrom os left i mm s size (r, mm', s') =
    ((r ≡ 0) × (mm' ≡ mm) × Tries os size left i s none s')
    ⊎ ((v : ℕ) × (0 < v)
        × (v + 4097 * mib < 2 ^ 64)
        × (r ≡ size)
        × (mm' ≡ reserved mm v size)
        × Tries os size left i s (some v) s')

-- All sixteen attempts fail, and nothing is reserved; or one of them maps `v`, and that is where the
-- reservation is.
abbrev pub Reserves : (os : Os) → Mmap → os.State → ℕ → ℕ × Mmap × os.State → Type 0
Reserves os mm s size result = ReservesFrom os 16 0 mm s size result

mapping_of :
    (r : Option ℕ) → (address_of r == 0) ≡ false → (r ≡ some (address_of r)) × (0 < address_of r)
mapping_of none live = absurd (ground arith)
mapping_of (some v) live = (refl, ground arith)

later_Reserves :
    (os : Os) (left i : ℕ) (mm : Mmap) (s : os.State) (size : ℕ) (q : ℕ × Mmap × os.State)
    → address_of (os.map_none s (hint i) size).0 ≡ 0
    → ReservesFrom os left (i + 1) mm (os.map_none s (hint i) size).1 size q
    → ReservesFrom os (suc left) i mm s size q
later_Reserves os left i mm s size q zero_at (inl (z, same, tries)) =
    inl (z, same, refused zero_at tries)
later_Reserves os left i mm s size q zero_at (inr (v, pos, room, e, at, tries)) =
    inr (v, pos, room, e, at, refused zero_at tries)

reserve_from-Reserves :
    (os : Os)
    → LowMaps os
    → (left i : ℕ) (mm : Mmap) (s : os.State) (size : ℕ) → mm.ptr ≡ 0
    → ReservesFrom os left i mm s size (reserve_from os left i mm s size)
unfolding reserve_from virtual_reserve
reserve_from-Reserves os low zero i mm s size new = inl (refl, refl, none_left)
reserve_from-Reserves os low (suc left) i mm s size new =
    let a = os.map_none s (hint i) size in
    elim (Bool-cases (address_of a.0 == 0)) [
      | inl zero_at ↦
          rw (zero_at, reserve_from)
            (later_Reserves os left i mm s size _ (ground (arith, zero_at))
              (reserve_from-Reserves os low left (i + 1) mm a.1 size new))
      | inr got ↦
          let vacant : (mm.ptr == 0) ≡ true = ground arith in
          let (at, pos) = mapping_of a.0 got in
          let run : os.map_none s (hint i) size ≡ (some (address_of a.0), a.1) =
            ap (λ r. (r, a.1)) at in
          rw (got, vacant, reserve_from)
            (inr (
              address_of a.0,
              pos,
              low s a.1 (hint i) size (address_of a.0) run,
              refl,
              refl,
              mapped (address_of a.0) run pos,
            ))
    ]

-- Where every address that `mmap` gives has room for all chunks below the end of the address space:
-- `reserve` of a pool that has no address space either returns 0 and changes nothing in it, and none
-- of its sixteen calls of `mmap` gives an address; or it returns the size and points the pool at the
-- address that the first successful call of `mmap` gives, with no chunk made.
pub reserve-Reserves :
    (os : Os)
    → LowMaps os
    → (mm : Mmap) (s : os.State) (size : ℕ) → mm.ptr ≡ 0
    → Reserves os mm s size (reserve os mm s size)
unfolding reserve
reserve-Reserves os low mm s size new = reserve_from-Reserves os low 16 0 mm s size new

reserve_from_twice :
    (os : Os) (mm : Mmap) (size : ℕ)
    → 0 < mm.ptr
    → (left i : ℕ) (s : os.State)
    → ((reserve_from os left i mm s size).0 ≡ 0) × ((reserve_from os left i mm s size).1 ≡ mm)
unfolding reserve_from
reserve_from_twice os mm size old zero i s = (refl, refl)
reserve_from_twice os mm size old (suc left) i s =
    let address = if ltb i 15 then 0x10000000000 * (i + 1) else 0 in
    let v = virtual_reserve os s address size in
    let taken : (mm.ptr == 0) ≡ false = ground arith in
    elim (Bool-cases (v.0 == 0)) [
      | inl failed ↦ rw (failed, reserve_from) (reserve_from_twice os mm size old left (i + 1) v.1)
      | inr got ↦
          rw (got, taken, reserve_from)
            (reserve_from_twice os mm size old left (i + 1) (virtual_release os v.1 v.0).1)
    ]

-- A pool that has address space already fails to reserve more, and is not changed.
pub reserve_twice :
    (os : Os) (mm : Mmap) (s : os.State) (size : ℕ)
    → 0 < mm.ptr
    → ((reserve os mm s size).0 ≡ 0) × ((reserve os mm s size).1 ≡ mm)
unfolding reserve
reserve_twice os mm s size old = reserve_from_twice os mm size old 16 0 s

-- A fresh reservation is a pool with no chunk.
pub reserved-IsPool :
    (m : Memory) (page_size v size : ℕ)
    → 0 < v
    → v + 4097 * mib < 2 ^ 64
    → IsPool m (reserved (create page_size) v size) 0 [] (λ p. false)
unfolding create
reserved-IsPool m page_size v size pos room = record {
  placed = record { base = pos; room = room; unit = refl };
  few = omega arith;
  top = omega arith;
  chain = refl;
  free = λ p h. cc;
  used = λ p h. cc;
  apart = λ p h. cc;
  covered = λ i lt. absurd (omega arith);
}
