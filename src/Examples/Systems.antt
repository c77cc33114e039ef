-- ===== src/Examples/Systems.antt =====
-- src/np_mmap.cpp and src/np_thread.cpp as they are built for Windows, np_alloc_test/main.cpp, and
-- the block of src/main.cpp.
use np_alloc.Prelude.{
  ℕ, zero, suc, ◌+◌, ◌≡◌, ◌≢◌, min, refl, ap, true, false, List, [], ◌∷◌, Option, none, some, arith,
  Show,
}
use np_alloc.Mmap.{Mmap, create, ok, ◌>>=◌}
use np_alloc.Mmap.Windows.{Api, Reservations, Reserved, reserve, destroy, reserve-Reserved}
use np_alloc.AddressCheck.{Messages, check_address_space}
use np_alloc.AddressCheck.Balance.{Quiet, check_address_space-Has}
use np_alloc.Thread.Exit.{new_thread, thread_atexit}
use np_alloc.Thread.Fls.{Fls, Limited, fls_deleted_count, fls_deleted_count_lem}
use np_alloc.TlsPsPool.{with_memory}
use np_alloc.ThreadLocalPool.{
  Heap, free_block, stamp, user_pointer, whole_size, alloc_block, header_size,
}
use np_alloc.ThreadLocalPool.Current.{Current, unset, live, delete_callback, get}
use np_alloc.Demo.{memset, test_block, test_block_lem}
use np_alloc.Examples.Chunks.{os}
use np_alloc.Examples.Pools.{first_world, small_sizes, small_pools, small_made}

abbrev rest_of : List ℕ → List ℕ
rest_of [] = []
rest_of (p ∷ l) = l

-- It grants every address, and keeps the list of what it has granted.
abbrev windows : Api
windows = record {
  State = List ℕ;
  alloc_reserve = λ s address size. let p = address + 65536 in (p, p ∷ s);
  alloc_commit = λ s address size. (address, s);
  free_decommit = λ s address size. (true, s);
  free_release = λ s address size. (true, rest_of s);
  page_size = 4096;
}

abbrev windows_book : Reservations windows
windows_book = record {
  Has = λ s l. s ≡ l;
  none_made = λ s l address size has none. absurd (omega (arith, none));
  made = λ s l address size has some_p. ap (λ r. (address + 65536) ∷ r) has;
  released = λ s l v has. ap rest_of has;
}

reserve-Reserved_example :
    Reserved windows windows_book []
      (create 4096)
      1048576
      (reserve windows (create 4096) [] 1048576)
    × ((mm' : Mmap) (s' : List ℕ) → mm'.ptr ≢ 0 → s' ≡ mm'.ptr ∷ [] → destroy windows mm' s' ≡ [])
reserve-Reserved_example = reserve-Reserved windows windows_book (create 4096) [] 1048576 [] refl

abbrev silent : Messages windows
silent = record {
  get_last_error = λ s. 0;
  format_message = λ s id. (0, [], s);
  local_free = λ s buffer. s;
}

quiet : Quiet windows silent windows_book
quiet = record {
  commits = λ s l address size has. has;
  decommits = λ s l address size has. has;
  formats = λ s l id has. has;
  frees = λ s l buffer has. has;
}

abbrev blank : Show
blank hex width n = []

check_address_space-Has_example : (check_address_space windows silent blank (7 ∷ [])).1 ≡ 7 ∷ []
check_address_space-Has_example =
    check_address_space-Has windows silent blank windows_book quiet (7 ∷ []) (7 ∷ []) refl

abbrev take_index : ℕ → Option ℕ × ℕ
take_index zero = (none, 0)
take_index (suc n) = (some n, n)

abbrev indices : Fls
indices = record { State = ℕ; fls_alloc = take_index }

abbrev indices_left : Limited indices
indices_left = record {
  left = λ s. s;
  takes = λ s n e. (n, ap (λ k. (take_index k).0) e, ap (λ k. (take_index k).1) e);
  empty = λ s e. (ap (λ k. (take_index k).0) e, ap (λ k. (take_index k).1) e);
}

fls_deleted_count_lem_example : fls_deleted_count indices (λ f. []) 100 30 ≡ some (min 100 30)
fls_deleted_count_lem_example =
    fls_deleted_count_lem indices indices_left (λ f. []) (λ f. refl) 100 30

-- Every block comes from `malloc`, at 4096.
abbrev page_heap : Heap
page_heap = record { State = Unit {0}; malloc = λ s size. (4096, s); free = λ s p. s }

-- The main thread before its first call of `np_alloc`, and with its pool.
abbrev main_thread : Current
main_thread = record { s_pool = unset; tls = new_thread true }

abbrev pool_thread : Current
pool_thread = record {
  s_pool = live small_pools;
  tls = thread_atexit (new_thread true) (some delete_callback);
}

first :
    get false 4096 small_sizes first_world.global main_thread.s_pool main_thread.tls
    ≡ ok pool_thread
unfolding get
first = rw small_made refl

large :
    alloc_block os page_heap false first_world tt small_pools (whole_size 50)
    ≡ ok ((4096, first_world, tt), small_pools)
unfolding alloc_block whole_size header_size
large = refl

test_block_lem_example :
    test_block os page_heap false 4096 small_sizes 8192 1 first_world tt main_thread ≡ (do
      (r, pool'') ←
          free_block os page_heap false
            (with_memory first_world
              (memset (stamp first_world.memory 4096 50 8192 73 1) (user_pointer 4096) 0x33 50))
            tt
            small_pools
            4096
            (whole_size 50)
      ok (r, record pool_thread { s_pool = live pool'' }))
test_block_lem_example =
    test_block_lem os page_heap false 4096 small_sizes 8192 1 first_world first_world tt tt
      main_thread pool_thread small_pools small_pools 4096 first refl large (λ e. omega (arith, e))
      (omega arith)
