-- ===== src/ThreadLocalPool.antt =====
-- src/np_alloc.cpp, `thread_local_pool`, `np_alloc` and `np_free`: the pools of one thread by
-- block size, the table from a number of bytes to its pool, and the header and the fences around
-- what the program gets. `malloc` and `free` serve the large sizes and are parameters.
pub mod Sizes
pub mod Mapping
pub mod Fence
pub mod Checks
pub mod Align
pub mod Current
pub mod Functions
use np_alloc.Prelude.{
  ℕ, zero, suc, ◌+◌, ◌-◌, ◌*◌, ◌/◌, ◌%◌, ◌^◌, ◌==◌, ltb, leb, Bool, true, false, List, [], ◌∷◌,
  ◌++◌, Option, none, some, if◌then◌else◌, length, get_elem?, set,
}
use np_alloc.LfStack.{update, null}
use np_alloc.Memory.{Memory, read64, write64, write16}
use np_alloc.Mmap.{Os, Result, ok, aborted, fault, ◌>>=◌, ◌>>◌, assert}
use np_alloc.GlobalPool.{GlobalPool}
use np_alloc.TlsPsPool.{TlsPool, World, with_memory}
use np_alloc.TlsPsPool as TlsPsPool

abbrev pub default_align_size : ℕ
default_align_size = 16

abbrev pub l1_cache_align_size : ℕ
l1_cache_align_size = 64

abbrev pub max_block_size : ℕ
max_block_size = 8192 + l1_cache_align_size - default_align_size

abbrev pub use_32_and_48_alloc_size : Bool
use_32_and_48_alloc_size = false

unfoldable pub calc_aligned_size : (actual_size aligned_size : ℕ) → ℕ
calc_aligned_size actual aligned = ((actual + aligned - 1) / aligned) * aligned

-- `sizeof(alloc_header_t)`: `size` at 0, `line` at 8, `thread_id` at 10, `padding_` at 12, `file` at
-- 16.
abbrev pub sizeof_alloc_header : ℕ
sizeof_alloc_header = 8 + 2 + 2 + 4 + 8

unfoldable pub header_size : ℕ
unfolding calc_aligned_size
header_size = calc_aligned_size sizeof_alloc_header default_align_size

abbrev pub memory_fence_padding : ℕ → ℕ
memory_fence_padding i = if i % 2 == 0 then 13758420712273941016 else 6674804268615599905

-- The inner loop of `get_alloc_size_list`, over `j`; the flag says that `goto done` was taken.
unfoldable pub size_row : (fuel i j : ℕ) → List ℕ → Bool × List ℕ
size_row zero i j sizes = (false, sizes)
size_row (suc fuel) i j sizes =
    let alloc_size = (j * 2 ^ i) * l1_cache_align_size + l1_cache_align_size in
    let sizes' = sizes ++ (alloc_size ∷ []) in
    elim (leb (max_block_size + default_align_size) alloc_size) [
      | true ↦ (true, sizes')
      | false ↦ size_row fuel i (j + 1) sizes'
    ]

-- The outer loop, over `i`. It has no other end, so it may run out of fuel.
unfoldable pub size_rows : (fuel i : ℕ) → List ℕ → Option (List ℕ)
unfolding size_row
size_rows zero i sizes = none
size_rows (suc fuel) i sizes =
    let (done, sizes') = size_row 4 i 4 sizes in
    elim done [ true ↦ some sizes' | false ↦ size_rows fuel (i + 1) sizes' ]

abbrev pub first_sizes : List ℕ
first_sizes =
    (if use_32_and_48_alloc_size then (32 ∷ 48 ∷ []) else [])
    ++ (64 ∷ 64 * 2 ∷ 64 * 3 ∷ 64 * 4 ∷ [])

-- `get_alloc_size_list`, with its assertion.
unfoldable pub get_alloc_size_list : (fuel : ℕ) (ndebug : Bool) → Option (Result (List ℕ))
unfolding size_rows
get_alloc_size_list fuel ndebug = elim (size_rows fuel 0 first_sizes) [
  | none ↦ none
  | some sizes ↦ some (assert ndebug (leb (length sizes) 32) >> ok sizes)
]

-- The table, with `none` where it has not been written, and the next index to write.
abbrev pub Table : Type 0
Table = ℕ × (ℕ → Option ℕ)

-- `while (alloc_size >= cur_size) mapping_pool_[cur_size++] = &pool;` for the pool number `i`.
unfoldable pub map_pool : (fuel alloc_size i : ℕ) → Table → Table
map_pool zero alloc_size i (cur_size, table) = (cur_size, table)
map_pool (suc fuel) alloc_size i (cur_size, table) = elim (leb cur_size alloc_size) [
  | true ↦ map_pool fuel alloc_size i (cur_size + 1, update table cur_size (some i))
  | false ↦ (cur_size, table)
]

-- The `while` of each pool in turn; it writes at most `alloc_size + 1` entries.
unfoldable pub map_pools : List ℕ → (i : ℕ) → Table → Table
map_pools [] i table = table
map_pools (alloc_size ∷ sizes) i table =
    map_pools sizes (i + 1) (map_pool (alloc_size + 1) alloc_size i table)

-- `if (max_alloc_size_ < sz) max_alloc_size_ = sz;`
unfoldable pub max_size : List ℕ → (max_alloc_size : ℕ) → ℕ
max_size [] m = m
max_size (sz ∷ sizes) m = max_size sizes (if ltb m sz then sz else m)

abbrev pub create_pools : List ℕ → GlobalPool → List TlsPool
create_pools [] g = []
create_pools (sz ∷ sizes) g = TlsPsPool.create sz g ∷ create_pools sizes g

-- `tls_pool_`, `mapping_pool_` (its entries as indices) and `max_alloc_size_`.
pub record ThreadPool : Type 0 where
  pub tls_pool : List TlsPool
  pub mapping_pool : ℕ → Option ℕ
  pub max_alloc_size : ℕ

-- The first store to the table, which faults where `np::aligned_alloc` has returned null. Without a
-- pool there is no store.
abbrev pub write_table : (mapping : ℕ) → List ℕ → Result (Unit {0})
write_table mapping [] = ok tt
write_table mapping (sz ∷ sizes) = if mapping == null then fault else ok tt

-- `init` for the list `sizes`, where `mapping` is what `np::aligned_alloc` returns for the table.
unfoldable pub init : (ndebug : Bool) → (mapping : ℕ) → List ℕ → GlobalPool → Result ThreadPool
init ndebug mapping sizes g = do
  let max = max_size sizes 0
  let (cur_size, table) = map_pools sizes 0 (0, λ n. none)
  write_table mapping sizes
  assert ndebug (cur_size == max + 1)
  ok (record { tls_pool = create_pools sizes g; mapping_pool = table; max_alloc_size = max })

-- `malloc` and `free`.
pub record Heap : Type 1 where
  pub State : Type 0
  pub malloc : State → (size : ℕ) → ℕ × State
  pub free : State → ℕ → State

-- What `alloc` adds to the number of bytes, in `size_t`.
unfoldable pub whole_size : ℕ → ℕ
unfolding header_size
whole_size bytes = (bytes + header_size + 16 * 2) % 2 ^ 64

-- `post_pad`, behind the bytes that the header at `h` counts.
unfoldable pub post_pad : Memory → ℕ → ℕ
unfolding header_size
post_pad m h = (h + header_size + 16 + read64 m h) % 2 ^ 64

-- The stores of `alloc` through `h`.
unfoldable pub stamp : Memory → (h bytes file line thread_id : ℕ) → Memory
unfolding post_pad header_size
stamp m h bytes file line thread_id =
    let header =
      write16 (write64 (write16 (write64 m h bytes) (h + 8) line) (h + 16) file) (h + 10)
        thread_id in
    let pre =
      write64 (write64 header (h + header_size) (memory_fence_padding 0)) (h + header_size + 8)
        (memory_fence_padding 1) in
    let post = post_pad header h in
    write64 (write64 pre post (memory_fence_padding 2)) (post + 8) (memory_fence_padding 3)

-- The four assertions of `dealloc`.
unfoldable pub check_fences : (ndebug : Bool) → Memory → (h : ℕ) → Result (Unit {0})
unfolding post_pad header_size
check_fences ndebug m h = do
  assert ndebug (read64 m (h + header_size) == memory_fence_padding 0)
  assert ndebug (read64 m (h + header_size + 8) == memory_fence_padding 1)
  assert ndebug (read64 m (post_pad m h) == memory_fence_padding 2)
  assert ndebug (read64 m (post_pad m h + 8) == memory_fence_padding 3)

-- The result for the program, and back.
unfoldable pub user_pointer : (h : ℕ) → ℕ
unfolding header_size
user_pointer h = h + header_size + 16

unfoldable pub get_alloc_header : (ptr : ℕ) → ℕ
unfolding header_size
get_alloc_header ptr = ptr - header_size - 16

module _ (os : Os) (heap : Heap) (ndebug : Bool) where
  -- The call of a pool through the table; an entry that was never written faults.
  unfoldable pub with_pool :
      {A : Type 0}
      → ThreadPool
      → (alloc_size : ℕ) → (TlsPool → Result (A × TlsPool))
      → Result (A × ThreadPool)
  with_pool tp alloc_size f = elim (tp.mapping_pool alloc_size) [
    | none ↦ fault
    | some i ↦ elim (get_elem? tp.tls_pool i) [
      | none ↦ fault
      | some t ↦ do (a, t') ← f t; ok (a, record tp { tls_pool = set tp.tls_pool i t' })
    ]
  ]

  -- The block under the header, from a pool or from `malloc`.
  unfoldable pub alloc_block :
      World os
      → heap.State
      → ThreadPool
      → (alloc_size : ℕ) → Result ((ℕ × World os × heap.State) × ThreadPool)
  unfolding with_pool
  alloc_block w s tp alloc_size =
      let (p, s') = heap.malloc s alloc_size in
      if leb alloc_size tp.max_alloc_size
      then with_pool tp alloc_size
          (λ t. TlsPsPool.alloc os ndebug w t >>= λ (p, w', t'). ok ((p, w', s), t'))
      else ok ((p, w, s'), tp)

  -- `alloc`, and `np_alloc` with a file and a line. The stores through a null result of `malloc`
  -- fault.
  unfoldable pub alloc :
      World os
      → heap.State
      → ThreadPool
      → (bytes file line thread_id : ℕ) → Result ((ℕ × World os × heap.State) × ThreadPool)
  alloc w s tp bytes file line thread_id = do
    ((h, w', s'), tp') ← alloc_block w s tp (whole_size bytes)
    if h == null
        then fault
        else ok (
          (user_pointer h, with_memory w' (stamp w'.memory h bytes file line thread_id), s'),
          tp',
        )

  unfoldable pub free_block :
      World os
      → heap.State
      → ThreadPool
      → (h alloc_size : ℕ) → Result ((World os × heap.State) × ThreadPool)
  unfolding with_pool
  free_block w s tp h alloc_size =
      if leb alloc_size tp.max_alloc_size
      then with_pool tp alloc_size
          (λ t. TlsPsPool.dealloc os ndebug w t h >>= λ (w', t'). ok ((w', s), t'))
      else ok ((w, heap.free s h), tp)

  unfoldable pub dealloc :
      World os → heap.State → ThreadPool → (ptr : ℕ) → Result ((World os × heap.State) × ThreadPool)
  dealloc w s tp ptr =
      let h = get_alloc_header ptr in
      check_fences ndebug w.memory h >> free_block w s tp h (whole_size (read64 w.memory h))

  -- `np_free`.
  unfoldable pub np_free :
      World os → heap.State → ThreadPool → (ptr : ℕ) → Result ((World os × heap.State) × ThreadPool)
  np_free w s tp ptr = if ptr == null then ok ((w, s), tp) else dealloc w s tp ptr
