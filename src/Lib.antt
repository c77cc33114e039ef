-- ===== src/Lib.antt =====
-- np_alloc: a memory allocator with pools for each thread, over chunks of 1 MB that come from one
-- reservation of address space.
--
-- The parts, from the bottom up, and how they use each other:
--
-- - Common (src/np_common.h): the number literals, the bit counts and the
--   aligned memory, for both compilers.
-- - Bitset.Word and Bitset.Large (src/np_bitset.h): `bitset<64>`, a word whose position 0 is its
--   highest bit, and `bitset<TSize>`, an index word over words. `mmap` keeps one.
-- - LfStack (src/np_lf_stack.h): `lf_stack`. A thread is a program counter with its local
--   variables (`Pc`); `access` makes one access to shared memory: a load of `head_`, a read or a
--   write of a `next` field, or a compare-exchange, which may fail for no reason. LfStack.System
--   has any number of threads in any order, and clients that push only nodes that they hold, but
--   write to these as they like. LfStack.Solo runs one call alone (`push`, `pop`, `for_each`), and
--   LfStack.Alone the rest of a call that has begun.
-- - Mmap (src/np_mmap.h, src/np_mmap.cpp): the reservation and its chunks, over an operating
--   system `Os` that is a parameter (mmap(2), mprotect, madvise, munmap, in their POSIX use). The
--   free list is an `lf_stack` whose nodes are the first bytes of the chunks, so its `next` fields
--   are words of Memory.
-- - GlobalPool (src/global_pool.h): one `mmap` for all threads, and the sizes that it tries.
-- - TlsPsPool (src/np_alloc.cpp, `tls_ps_pool`): the blocks of one size of one thread, carved from
--   chunks. The list of chunks and the list of free blocks lie in Memory.
-- - ThreadLocalPool (src/np_alloc.cpp, `thread_local_pool`, `np_alloc`, `np_free`): a `tls_ps_pool`
--   for each size, the table from sizes to pools, the header and the fences around a block.
--   `malloc` and `free` are a parameter (`Heap`).
-- - Allocator and Process (src/np_alloc.cpp with src/np_mmap.cpp): the parts above together. Allocator
--   has the pools of any number of threads and sizes over one `mmap`; its `Books` say which chunks
--   and blocks there are and who has them. Process has the threads with `np_alloc` and `np_free` for
--   all sizes: `Step` is one call of one thread, or a write of the program to bytes that it has. A
--   block may be freed by any thread; `Fits` says of a run that in no call of `np_alloc` the number
--   of bytes wraps with the header and the fences. What `malloc` and `free` do is stated by `HeapLaws`, with the
--   first 4 GB that the constructor of the global pool asks for as the reservation.
-- - Thread (src/np_thread.cpp): the callbacks that run when a thread ends. Util (src/util.cpp):
--   hexadecimal text, and lines of text.
-- - ThreadLocalPool.Current (src/np_alloc.cpp, `thread_local_pool::get`, `np_alloc`, `np_free`): the
--   pool of the running thread, which a callback of Thread deletes at the thread's end.
-- - Mmap.Race (src/np_mmap.cpp, `alloc_chunk_from_new`) and GlobalPool.Singleton (src/np_alloc.cpp,
--   `get_global_pool`, `del_global_pool`): any number of threads, one access of one thread at a
--   time, with the call of `std::atexit`, and that of `virtual_alloc`, as steps of their own. Mmap.Windows: `reserve` over VirtualAlloc. Thread.Exit and Thread.Fls: the key of pthread
--   and the indices of Windows that hold a thread's callbacks.
-- - LfStack.Report, Mmap.Report, GlobalPool.Report: what `np_debug_print` and its parts print.
-- - LocalNew (src/local_new.h), Platform (src/platform.h, np_alloc_test/platform.h, src/stdafx.h).
--   Util.Contract: what src/util.h promises to its clients; Bitset.Contract: what both
--   bitsets promise; ThreadLocalPool.Functions: src/np_alloc.h.
-- - Programs over the library: Bench (bench/bench.cpp), Demo (src/main.cpp), AddressCheck
--   (np_alloc_test/main.cpp).
-- - Memory holds bytes by address, with the loads and stores of 2 and 8 bytes. Prelude: Boolean tests,
--   lists over native numbers, and bits. Examples: runs at concrete inputs.
--
-- An address is a number; null is 0. A word of 64 bits has its wrap-around written out. A failed
-- assertion is `aborted`, and an access through a null pointer is `fault`; `ndebug` is a parameter
-- wherever the code asserts.
--
-- Fuel: a call of the stack that runs alone has an access count; four for a node and four more are
-- enough for `for_each`, and `push` and `pop` have fuel of their own. `reserve` makes its sixteen
-- attempts. The constructor of the global pool halves 4 GB while 64 MB are left, in seven rounds.
-- `get_alloc_size_list` ends in its sixth round. `map_pool` writes at most one entry for each
-- number up to the block size. `deinit` has fuel for the number of chunks and for the number of free
-- blocks, and `invoke` of Thread for the number of callbacks that run. A loop over the positions of
-- a bitset takes at most as many rounds as it has positions, and one more test for its end. Each of
-- these tells the end of its loop from the end of its fuel, `free_chunks` by the list of chunks that
-- is left.
--
-- Parameters of the program's surroundings: `Os` (mmap(2) and its like), `Mmap.Windows.Api`
-- (VirtualAlloc, VirtualFree), `Heap`, `AlignedHeap` and `Class` (malloc and free), the result of
-- `np::aligned_alloc` in `thread_local_pool::init`, `Fls` (FlsAlloc), the random numbers and the order
-- of the threads of the benchmark, and `Show`, which writes numbers to a stream.
--
-- Not modelled: weak memory orders (all accesses are sequentially consistent); the messages of
-- `deinit` and of hexstring_to_binary; the clock and the output of bench/bench.cpp; the tests, and
-- the copies of other projects (deps/googletest, deps/gsl, src/linux/tchar.h). Threads interleave in
-- LfStack, Mmap.Race and GlobalPool.Singleton, and in Bench call by call; elsewhere, also in Process, each call runs alone.
-- Process has no end of a thread, which ThreadLocalPool.Current has: it gives chunks back whose
-- blocks may still be in use.
mod Prelude
mod Memory
pub mod Common
pub mod Bitset
pub mod LfStack
pub mod Mmap
pub mod GlobalPool
pub mod TlsPsPool
pub mod ThreadLocalPool
pub mod Util
pub mod Thread
pub mod Allocator
pub mod Process
pub mod Bench
pub mod AddressCheck
pub mod LocalNew
pub mod Demo
pub mod Platform
mod Examples
