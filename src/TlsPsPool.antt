-- ===== src/TlsPsPool.antt =====
-- src/np_alloc.cpp, `tls_ps_pool`: the pool of one thread for blocks of one size. Its chunks are
-- linked through their first eight bytes, and its free blocks through theirs.
pub mod Blocks
pub mod Moves
pub mod Adopt
pub mod Carve
pub mod Alloc
pub mod Serve
pub mod Deinit
use np_alloc.Prelude.{
  ℕ, zero, suc, ◌+◌, ◌-◌, ◌*◌, ◌/◌, ◌%◌, ◌^◌, ◌==◌, ltb, leb, Bool, true, false, ◌||◌, not, Option,
  none, some, if◌then◌else◌,
}
use np_alloc.Memory.{Memory, read64, write64}
use np_alloc.LfStack.{Ptr, null}
use np_alloc.Mmap.{Os, Result, ok, aborted, fault, ◌>>=◌, ◌>>◌, assert}
use np_alloc.GlobalPool.{GlobalPool}
use np_alloc.GlobalPool

-- `head_`, `free_`, `alloc_size_`, `chunk_size_` and `allocated_`.
pub record TlsPool : Type 0 where
  pub head : Ptr
  pub free : Ptr
  pub alloc_size : ℕ
  pub chunk_size : ℕ
  pub allocated : ℕ

-- Memory, the global pool and the operating system, which the pools of all threads share.
pub record World (os : Os) : Type 0 where
  pub memory : Memory
  pub global : GlobalPool
  pub system : os.State

abbrev pub with_memory : {os : Os} → World os → Memory → World os
with_memory w m = record w { memory = m }

-- The constructor.
unfoldable pub create : (alloc_size : ℕ) → GlobalPool → TlsPool
create alloc_size g = record {
  head = null;
  free = null;
  alloc_size = alloc_size;
  chunk_size = GlobalPool.get_chunk_size g;
  allocated = 0;
}

-- `kBucketSize` of the pools that `thread_local_pool` has. It is not used.
abbrev pub bucket_size : ℕ
bucket_size = 512

unfoldable pub get_alloc_size : TlsPool → ℕ
get_alloc_size t = t.alloc_size

-- `sizeof(free_header)`, whose only field is `next`.
abbrev pub sizeof_free_header : ℕ
sizeof_free_header = 8

-- `sizeof(pool)`, and the field `pool_curr` behind `next`.
abbrev pub sizeof_pool : ℕ
sizeof_pool = 16

abbrev pub pool_curr : Ptr → ℕ
pool_curr p = p + 8

unfoldable pub get_alloc_end : TlsPool → Ptr → ℕ
get_alloc_end t p = (p + t.chunk_size) % 2 ^ 64

-- The difference is an `int64`: from 2 ^ 63 on it stands for a negative number.
unfoldable pub get_free_count : Memory → TlsPool → ℕ
unfolding get_alloc_end
get_free_count m t =
    let free_size = (get_alloc_end t t.head + 2 ^ 64 - read64 m (pool_curr t.head)) % 2 ^ 64 in
    if (free_size == 0) || leb (2 ^ 63) free_size then 0 else free_size / t.alloc_size

module _ (os : Os) (ndebug : Bool) where
  -- The result of `alloc_chunk` is used with no test for null.
  unfoldable pub alloc_from_global : World os → TlsPool → Result (World os × TlsPool)
  alloc_from_global w t = do
    assert ndebug (leb sizeof_pool (GlobalPool.get_chunk_size w.global))
    (p, global, system) ← GlobalPool.alloc_chunk os ndebug w.memory w.global w.system
    if p == null
        then fault
        else ok (
          record {
            memory = write64 (write64 w.memory (pool_curr p) (p + sizeof_pool)) p t.head;
            global = global;
            system = system;
          },
          record t { head = p },
        )

  -- From the chunk at the head, which has room.
  unfoldable pub carve : World os → TlsPool → Ptr × World os
  carve w t =
      let p = read64 w.memory (pool_curr t.head) in
      (p, with_memory w (write64 w.memory (pool_curr t.head) ((p + t.alloc_size) % 2 ^ 64)))

  unfoldable pub alloc_from_local_pool : World os → TlsPool → Result (Ptr × World os × TlsPool)
  alloc_from_local_pool w t = do
    (w', t') ←
        (if (t.head == null) || (get_free_count w.memory t == 0)
          then alloc_from_global w t
          else ok (w, t))
    let (p, w'') = carve w' t'
    ok (p, w'', t')

  -- `alloc`, which ignores the number of bytes, the file and the line.
  unfoldable pub alloc : World os → TlsPool → Result (Ptr × World os × TlsPool)
  alloc w t = do
    (p, w', t') ←
        (if not (t.free == null)
          then ok (t.free, w, record t { free = read64 w.memory t.free })
          else alloc_from_local_pool w t)
    if p == null
        then ok (p, w', t')
        else ok (p, w', record t' { allocated = (t'.allocated + 1) % 2 ^ 64 })

  unfoldable pub dealloc : World os → TlsPool → Ptr → Result (World os × TlsPool)
  dealloc w t p = do
    assert ndebug (leb sizeof_free_header t.alloc_size)
    ok (
      with_memory w (write64 w.memory p t.free),
      record t { allocated = (t.allocated + 2 ^ 64 - 1) % 2 ^ 64; free = p },
    )

  -- The loop of `deinit` that hands the chunks back; `fuel` bounds their number.
  unfoldable pub free_chunks : (fuel : ℕ) → World os → TlsPool → World os × TlsPool
  free_chunks zero w t = (w, t)
  free_chunks (suc fuel) w t = elim (t.head == null) [
    | true ↦ (w, t)
    | false ↦
        let next = read64 w.memory t.head in
        let (memory, global) = GlobalPool.free_chunk w.memory w.global t.head in
        free_chunks fuel (record w { memory = memory; global = global }) (record t { head = next })
  ]

  -- The loop of `deinit` that counts the free blocks; `none` where it has not ended after `fuel`
  -- rounds.
  unfoldable pub count_free : (fuel : ℕ) → Memory → (f : Ptr) → Option ℕ
  count_free zero m f = if f == null then some 0 else none
  count_free (suc fuel) m f = elim (f == null) [
    | true ↦ some 0
    | false ↦ elim (count_free fuel m (read64 m f)) [ none ↦ none | some c ↦ some (c + 1) ]
  ]

  -- `deinit` does nothing once the global pool is gone; `none` where the count does not end. What it
  -- prints is left out, the count with it.
  unfoldable pub deinit :
      (fuel : ℕ) → (alive : Bool) → World os → TlsPool → Option (World os × TlsPool)
  unfolding count_free
  deinit fuel alive w t =
      if not alive then some (w, t) else elim (count_free fuel w.memory t.free) [
        | none ↦ none
        | some c ↦ some (free_chunks fuel w t)
      ]

  -- `~tls_ps_pool`
  unfoldable pub destroy :
      (fuel : ℕ) → (alive : Bool) → World os → TlsPool → Option (World os × TlsPool)
  unfolding deinit
  destroy fuel alive w t = deinit fuel alive w t
