-- ===== src/Mmap.antt =====
-- src/np_mmap.h and src/np_mmap.cpp: the reservation of address space from which chunks come.
-- Each call runs alone here; `LfStack` has the interleavings of the free list. The virtual memory
-- calls are those of the POSIX branch, over an operating system that is a parameter.
pub mod Chunks
pub mod Alloc
pub mod Bounds
pub mod Reserve
pub mod Race
pub mod Report
pub mod Windows
use np_alloc.Prelude.{
  ℕ, zero, suc, ◌+◌, ◌-◌, ◌*◌, ◌/◌, ◌%◌, ◌^◌, ◌==◌, ltb, leb, Bool, true, false, ◌||◌, not, Option,
  none, some, if◌then◌else◌,
}
use np_alloc.Memory.{Memory, read64, write64}
use np_alloc.LfStack.{Ptr, null, Head, head_t, Shared, Pc, popped}
use np_alloc.LfStack.Solo.{pop, push}
use np_alloc.Bitset.Large.{Bitset}
use np_alloc.Bitset.Large as Large
use np_alloc.Common.{mb}

-- An assertion that fails ends the program (`aborted`), and so does an access through a null
-- pointer (`fault`).
pub data Result {ℓ} (A : Type ℓ) : Type ℓ where
  ok : A → Result A
  aborted : Result A
  fault : Result A

infixl 5 ◌>>=◌ ◌>>◌
abbrev pub ◌>>=◌ {ℓ κ} : {A : Type ℓ} {B : Type κ} → Result A → (A → Result B) → Result B
ok a >>= f = f a
aborted >>= f = aborted
fault >>= f = fault

abbrev pub ◌>>◌ {ℓ} : {B : Type ℓ} → Result (Unit {0}) → Result B → Result B
m >> k = m >>= λ _. k

-- `assert`: `ndebug` says that the program is built without assertions.
abbrev pub assert : (ndebug : Bool) → Bool → Result (Unit {0})
assert ndebug c = if ndebug || c then ok tt else aborted

-- The calls that `virtual_reserve` and the others make. A result `none` is `MAP_FAILED`.
pub record Os : Type 1 where
  pub State : Type 0
  pub map_none : State → (hint size : ℕ) → Option ℕ × State
  pub protect : State → (address size : ℕ) → Bool × State
  pub map_fixed : State → (address size : ℕ) → Option ℕ × State
  pub dont_need : State → (address size : ℕ) → Bool × State
  pub unmap : State → (address size : ℕ) → State
  pub page_size : ℕ

abbrev pub default_chunk_size : ℕ
default_chunk_size = mb 1

abbrev pub default_chunk_count : ℕ
default_chunk_count = 64 * 64

abbrev pub default_whole_chunk_size : ℕ
default_whole_chunk_size = default_chunk_size * default_chunk_count

pub record Mmap : Type 0 where
  pub ptr : ℕ
  pub alloc_chunk_index : Bitset
  pub head : ℕ
  pub free_head : Head
  pub perf_alloc : ℕ
  pub perf_dealloc : ℕ
  pub perf_alloc_from_free : ℕ
  pub size : ℕ
  pub base_page_size : ℕ
  pub chunk_size : ℕ

-- The constructor, with `init`.
unfoldable pub create : (page_size : ℕ) → Mmap
create page_size = record {
  ptr = 0;
  alloc_chunk_index = Large.empty default_chunk_count;
  head = 0;
  free_head = head_t 0 null;
  perf_alloc = 0;
  perf_dealloc = 0;
  perf_alloc_from_free = 0;
  size = 0;
  base_page_size = page_size;
  chunk_size = default_chunk_size;
}

-- `(uint64)ptr - (uint64)begin_ptr`
abbrev pub offset : ℕ → ℕ → ℕ
offset p begin = (p + 2 ^ 64 - begin) % 2 ^ 64

-- -1, where `ptr` is not at the start of a chunk.
abbrev pub no_index : ℕ
no_index = 2 ^ 64 - 1

unfoldable pub get_chunk_index : (ndebug : Bool) → Mmap → ℕ → Result ℕ
get_chunk_index ndebug mm p = do
  assert ndebug (not (p == 0))
  let pos = offset p mm.ptr
  if not (pos % mm.chunk_size == 0)
      then ok no_index
      else (assert ndebug (leb (pos / mm.chunk_size) default_chunk_count)
          >> ok (pos / mm.chunk_size))

unfoldable pub get_chunk_ptr : (ndebug : Bool) → Mmap → ℕ → Result ℕ
get_chunk_ptr ndebug mm chunk_index = do
  assert ndebug (leb chunk_index default_chunk_count)
  assert ndebug (not (mm.ptr == 0))
  ok ((mm.ptr + chunk_index * mm.chunk_size) % 2 ^ 64)

-- Whether a pointer lies in the reservation.
unfoldable pub validate_ptr : (ndebug : Bool) → Mmap → ℕ → Result Bool
validate_ptr ndebug mm p = do
  assert ndebug (not (p == 0))
  let end_ptr = (mm.ptr + mm.size) % 2 ^ 64
  ok (if ltb p mm.ptr then false else if leb end_ptr p then false else true)

-- What the virtual memory calls make of `MAP_FAILED`.
abbrev pub address_of : Option ℕ → ℕ
address_of none = 0
address_of (some v) = v

-- `free_head_`, with the `next` field of a `chunk_header` at its address.
abbrev pub free_list : Memory → Mmap → Shared
free_list m mm = record { head = mm.free_head; next = read64 m }

-- What `free_head_.pop()` returns.
abbrev pub result : Pc → Ptr
result (popped p) = p
result _ = null

module _ (os : Os) where
  open os use {State, map_none, protect, map_fixed, dont_need, unmap}

  unfoldable pub virtual_reserve : State → (hint size : ℕ) → ℕ × State
  virtual_reserve s hint size = let (v, s') = map_none s hint size in (address_of v, s')

  -- Without the size there is nothing to release.
  unfoldable pub virtual_release : State → ℕ → Bool × State
  virtual_release s p = (true, s)

  unfoldable pub virtual_alloc : State → (address size : ℕ) → ℕ × State
  virtual_alloc s address size =
      let (done, s') = protect s address size in
      let (v, s'') = map_fixed s' address size in
      if done then (address, s') else (address_of v, s'')

  unfoldable pub virtual_free : State → (address size : ℕ) → Bool × State
  virtual_free s address size = dont_need s address size

  -- The attempts from number `i` on: fifteen hints, then an address of the system's choice.
  unfoldable pub reserve_from : (left i : ℕ) → Mmap → State → ℕ → ℕ × Mmap × State
  reserve_from zero i mm s size = (0, mm, s)
  reserve_from (suc left) i mm s size =
      let address = if ltb i 15 then 0x10000000000 * (i + 1) else 0 in
      let (v, s') = virtual_reserve s address size in
      elim (v == 0) [
        | true ↦ reserve_from left (i + 1) mm s' size
        | false ↦ elim (mm.ptr == 0) [
          | true ↦ (
            size,
            record mm {
              ptr = v;
              size = size;
              alloc_chunk_index = Large.clear_all mm.alloc_chunk_index;
              head = v;
            },
            s',
          )
          | false ↦ reserve_from left (i + 1) mm (virtual_release s' v).1 size
        ]
      ]

  -- `reserve` returns the size, or 0 if it fails.
  unfoldable pub reserve : Mmap → State → ℕ → ℕ × Mmap × State
  reserve mm s size = reserve_from 16 0 mm s size

  -- `~mmap`
  unfoldable pub destroy : Mmap → State → State
  destroy mm s = if mm.ptr == 0 then s else if ltb 0 mm.size then unmap s mm.ptr mm.size else s

  -- A null pointer where no address space is reserved, or where the pages cannot be committed.
  unfoldable pub alloc_chunk_from_new : (ndebug : Bool) → Mmap → State → Result (ℕ × Mmap × State)
  alloc_chunk_from_new ndebug mm s = if mm.head == 0 then ok (0, mm, s) else (do
    index ← get_chunk_index ndebug mm mm.head
    assert ndebug (not (index == no_index))
    next_ptr ← get_chunk_ptr ndebug mm ((index + 1) % 2 ^ 64)
    let (v, s') = virtual_alloc s mm.head mm.chunk_size
    assert ndebug (not (v == 0))
    _ ← get_chunk_index ndebug mm v
    ok (v, record mm { head = next_ptr; perf_alloc = (mm.perf_alloc + 1) % 2 ^ 64 }, s'))

  -- The free list first, and new address space where it is empty.
  unfoldable pub alloc_chunk : (ndebug : Bool) → Memory → Mmap → State → Result (ℕ × Mmap × State)
  alloc_chunk ndebug m mm s =
      let (shared, pc) = pop (free_list m mm) in
      let p = result pc in
      let mm' = record mm { free_head = shared.head } in
      if p == 0 then alloc_chunk_from_new ndebug mm' s else (do
        _ ← get_chunk_index ndebug mm' p
        ok (p, record mm' { perf_alloc_from_free = (mm.perf_alloc_from_free + 1) % 2 ^ 64 }, s))

-- The chunk's first eight bytes become its `next`.
unfoldable pub free_chunk : Memory → Mmap → ℕ → Memory × Mmap
free_chunk m mm p =
    let (shared, pc) = push (free_list m mm) p in
    (
      write64 m p (shared.next p),
      record mm { free_head = shared.head; perf_dealloc = (mm.perf_dealloc + 1) % 2 ^ 64 },
    )
