-- ===== src/Allocator/Calls.antt =====
-- `alloc` and `dealloc` of a pool among the others.
use np_alloc.Prelude.{
  ℕ, ◌+◌, ◌-◌, ◌%◌, ◌^◌, ◌≡◌, ◌==◌, ◌⊎◌, refl, Bool, true, false, [], arith, leb, ◌||◌, inl, inr,
  Bool-cases,
}
use np_alloc.Memory.{read64, write64, write64-frame}
use np_alloc.LfStack.{Ptr, null, update}
use np_alloc.Mmap.{Mmap, Os, ok, aborted}
use np_alloc.Mmap
use np_alloc.Mmap.Chunks.{mib}
use np_alloc.GlobalPool.{GlobalPool, get_chunk_size}
use np_alloc.GlobalPool
use np_alloc.TlsPsPool.{
  TlsPool, World, with_memory, get_free_count, carve, alloc_from_global, alloc_from_local_pool,
  alloc, dealloc,
}
use np_alloc.TlsPsPool.Alloc.{Starved, count_room}
use np_alloc.TlsPsPool.Serve.{cons_of_head, ne_null, counted, adopts, with_chunk}
use np_alloc.Allocator.{Books, IsAllocator}
use np_alloc.Allocator.Layout.{Outside, IsBlock-inside, chunk_low, chunk_placed}
use np_alloc.Allocator.Moves.{KeepsLive, put, put-IsAllocator}
use np_alloc.Allocator.Supply.{Commits, alloc_chunk-Gives}
use np_alloc.Allocator.Adopt.{new_low}
use np_alloc.Allocator.Ways.{Serves, head_lem, room_Serves, free_Serves, fresh_Serves}

both_false : (x y : Bool) → (x || y) ≡ false → (x ≡ false) × (y ≡ false)
both_false x y e = (ground (arith, e), ground (arith, e))

module _ (os : Os) where
  -- What a pool in need of a chunk does when there is none.
  dry_aborted :
      (w : World os) (t : TlsPool)
      → get_chunk_size w.global ≡ mib
      → Starved w.memory t
      → Mmap.alloc_chunk os false w.memory w.global w.system ≡ aborted
      → alloc os false w t ≡ aborted
  unfolding alloc alloc_from_local_pool alloc_from_global GlobalPool.alloc_chunk
  dry_aborted w t unit (none, dry) run = rw (none, dry, unit, run) refl

  module _ (commits : Commits os) (w : World os) (pools : ℕ → TlsPool) (b : Books)
      (v : IsAllocator w.memory w.global pools b) where
    -- Any number of pools, of whatever sizes and threads, over one global pool, where the operating
    -- system commits the pages of chunks: `alloc` of any of them returns a block that the program
    -- did not use, and all stays well formed with that block in use, the other blocks that the
    -- program uses, of whatever pool, keep their bytes; or else it fails an assertion, and then all
    -- 4096 chunks have been made, none waits, and the pool has neither a free block nor room.
    pub alloc-Serves :
        (i : ℕ)
        → ((r : Ptr × World os × TlsPool) × (alloc os false w (pools i) ≡ ok r)
            × Serves os w pools b i r)
          ⊎ ((b.made ≡ 4096)
              × (b.waiting ≡ [])
              × Starved w.memory (pools i)
              × (alloc os false w (pools i) ≡ aborted))
    unfolding alloc alloc_from_local_pool get_chunk_size GlobalPool.alloc_chunk
    alloc-Serves i = elim (Bool-cases ((pools i).free == null)) [
      | inr some ↦ inl (
        ((pools i).free, w, counted (record (pools i) { free = read64 w.memory (pools i).free })),
        rw some (rw some refl),
        free_Serves os w pools b v i some,
      )
      | inl none ↦
          elim (Bool-cases (((pools i).head == null) || (get_free_count w.memory (pools i) == 0))) [
            | inl dry ↦
                elim (alloc_chunk-Gives os commits w.memory w.global b.made b.waiting b.shape.given
                  w.system v.global) [
                    | inl (d, g, s, made, waiting, run, gives) ↦
                        let served = fresh_Serves os w pools b v i d g s made waiting gives in
                        let w' : World os = with_chunk os false w (pools i) d g s in
                        let t : TlsPool = record (pools i) { head = d } in
                        let at : (carve os false w' t).0 == null ≡ false = ne_null _ served.2 in
                        let low = new_low os v i d g s made waiting gives in
                        inl (
                          ((carve os false w' t).0, (carve os false w' t).1, counted t),
                          rw
                              (
                                none,
                                dry,
                                adopts os false w (pools i) d g s v.global.placed.unit run
                                    (ne_null d (λ z. omega (arith, low))),
                                at,
                              )
                              refl,
                          served,
                        )
                    | inr (full, empty, run) ↦ inr (
                      full,
                      empty,
                      (none, dry),
                      dry_aborted w (pools i) v.global.placed.unit (none, dry) run,
                    )
                  ]
            | inr room ↦
                let (some_head, some_room) = both_false _ _ room in
                let (c, cs, e) =
                  cons_of_head w.memory (pools i).head (b.chunks i) some_head (v.local i).chunks in
                let (at, given, size, curr, fits) = head_lem os w pools b v i c cs e in
                let served =
                  room_Serves os w pools b v i c cs (((pools i).allocated + 1) % 2 ^ 64) e (
                    count_room w.memory (pools i) c (b.shape.count c) (v.local i).unit at curr fits
                      (chunk_low v c given).1 some_room) in
                let ne : (carve os false w (pools i)).0 == null ≡ false = ne_null _ served.2 in
                inl (
                  (
                    (carve os false w (pools i)).0,
                    (carve os false w (pools i)).1,
                    counted (pools i),
                  ),
                  rw (none, room, ne) refl,
                  served,
                )
          ]
    ]

    -- A block that the program uses goes to any pool of the same size, whatever pool it came from:
    -- all stays well formed, the block is no longer in use, and the other blocks in use, of whatever
    -- pool, keep their bytes.
    pub dealloc-IsAllocator :
        (i : ℕ) (p : Ptr)
        → b.live p ≡ (pools i).alloc_size
        → (w' : World os) × (t' : TlsPool) × (dealloc os false w (pools i) p ≡ ok (w', t'))
          × (t'.alloc_size ≡ (pools i).alloc_size)
          × ((b' : Books) × IsAllocator w'.memory w'.global (update pools i t') b'
              × (b'.live ≡ update b.live p 0)
              × KeepsLive b' w.memory w'.memory)
          × (w'.global.ptr ≡ w.global.ptr)
          × Outside w.global.ptr w.memory w'.memory
    unfolding dealloc
    dealloc-IsAllocator i p size =
        let wide : leb 8 (pools i).alloc_size ≡ true = ground (arith, (v.local i).wide) in
        let n : ℕ = ((pools i).allocated + 2 ^ 64 - 1) % 2 ^ 64 in
        let (v', keeps) = put-IsAllocator v i p n size in
        let block = v.used p (λ z. omega (arith, (v.local i).wide, size, z)) in
        (
          with_memory w (write64 w.memory p (pools i).free),
          record (pools i) { allocated = n; free = p },
          rw wide refl,
          refl,
          (put v i p, v', refl, keeps),
          refl,
          λ y out. write64-frame w.memory p (pools i).free y (
              omega
                (arith, out, IsBlock-inside v (b.live p) p block, chunk_placed v block.0 block.1)),
        )
