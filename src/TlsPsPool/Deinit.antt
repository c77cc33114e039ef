-- ===== src/TlsPsPool/Deinit.antt =====
-- The end of a thread: its chunks go back to the global pool.
use np_alloc.Prelude.{
  ℕ, zero, suc, ◌<◌, ◌≡◌, ◌≢◌, ◌==◌, refl, ap, ◌∙◌, Bool, true, false, List, [], ◌∷◌, arith, has,
  length, some, ◌⊎◌, ◌+◌, ◌≤◌,
}
use mathlib.Core.List.{reverse_aux}
use np_alloc.Memory.{Memory, read64, write64, read64-write64_apart}
use np_alloc.LfStack.{Ptr, null, update}
use np_alloc.LfStack.Chain.{Chain, Chain-frame}
use np_alloc.LfStack.Solo.{push_lem}
use np_alloc.Mmap.{Mmap, Os}
use np_alloc.Mmap
use np_alloc.Mmap.Chunks.{IsPool, chunk_apart, free_chunk-IsPool}
use np_alloc.GlobalPool.{GlobalPool}
use np_alloc.GlobalPool
use np_alloc.TlsPsPool.{TlsPool, World, free_chunks, count_free, deinit}

free_chunk_memory :
    (m : Memory) (mm : Mmap) (p : Ptr) → (Mmap.free_chunk m mm p).0 ≡ write64 m p mm.free_head.ptr
unfolding Mmap.free_chunk
free_chunk_memory m mm p =
    let value : update (read64 m) p mm.free_head.ptr p ≡ mm.free_head.ptr = ground arith in
    rw push_lem (rw value refl)

-- Freeing one chunk leaves the links of the other chunks in use.
free_chunk_links :
    {m : Memory} {mm : Mmap} {n : ℕ} {l : List Ptr} {given : Ptr → Bool}
    → IsPool m mm n l given
    → (p q : Ptr) → given p ≡ true
    → given q ≡ true
    → q ≢ p
    → read64 (Mmap.free_chunk m mm p).0 q ≡ read64 m q
free_chunk_links {m} {mm} v p q own own' ne =
    let (i, lt, e) = v.used p own in
    let (j, lt', f) = v.used q own' in
    rw (free_chunk_memory m mm p)
      (read64-write64_apart m q p mm.free_head.ptr (omega (arith, chunk_apart mm q p j i f e ne)))

-- The chunks `cs` are no longer given out.
abbrev pub without : (Ptr → Bool) → List Ptr → Ptr → Bool
without given [] = given
without given (c ∷ cs) = without (update given c false) cs

module _ (os : Os) where
  free_chunks_lem :
      (cs : List Ptr) (fuel : ℕ) (w : World os) (t : TlsPool) (n : ℕ) (l : List Ptr)
      (given : Ptr → Bool)
      → IsPool w.memory w.global n l given
      → Chain (read64 w.memory) t.head cs
      → ((c : Ptr) → has c cs ≡ true → given c ≡ true)
      → length cs < suc fuel
      → (w' : World os) × (free_chunks os false fuel w t ≡ (w', record t { head = null }))
        × IsPool w'.memory w'.global n (reverse_aux cs l) (without given cs)
        × ((q : Ptr) → given q ≡ true → has q cs ≡ false → read64 w'.memory q ≡ read64 w.memory q)
        × ((y : ℕ)
            → ((c : Ptr) → has c cs ≡ true → (y < c) ⊎ (c + 8 ≤ y))
            → w'.memory y ≡ w.memory y)
  unfolding free_chunks GlobalPool.free_chunk
  free_chunks_lem [] zero w t n l given v c own enough =
      (w, ap (λ h. (w, record t { head = h })) c, v, λ q h o. refl, λ y o. refl)
  free_chunks_lem [] (suc fuel) w t n l given v c own enough =
      let last : (t.head == null) ≡ true = ground arith in
      (
        w,
        rw (last, free_chunks) (ap (λ h. (w, record t { head = h })) c),
        v,
        λ q h o. refl,
        λ y o. refl,
      )
  free_chunks_lem (p ∷ cs) zero w t n l given v c own enough = absurd (omega arith)
  free_chunks_lem (p ∷ cs) (suc fuel) w t n l given v (at, ne, new, rest) own enough =
      let more : (t.head == null) ≡ false = ground arith in
      let given_p : given p ≡ true = own p (ground arith) in
      let (w', run, v', same, frame) =
        free_chunks_lem cs fuel
          (record {
            memory = (Mmap.free_chunk w.memory w.global p).0;
            global = (Mmap.free_chunk w.memory w.global p).1;
            system = w.system;
          })
          (record t { head = read64 w.memory p }) n (p ∷ l) (update given p false)
          (free_chunk-IsPool v p given_p).0
          (Chain-frame (read64 w.memory) (read64 (Mmap.free_chunk w.memory w.global p).0)
            (read64 w.memory p) cs
            (λ q h.
              free_chunk_links v p q given_p (own q (ground (arith, h)))
                (λ z. ground (arith, h, new, z)))
            rest)
          (λ q h. ground (arith, own q, h, new)) (omega arith) in
      (
        w',
        rw (more, free_chunks)
            (ap
                (λ h.
                  free_chunks os false fuel
                    (record {
                      memory = (Mmap.free_chunk w.memory w.global h).0;
                      global = (Mmap.free_chunk w.memory w.global h).1;
                      system = w.system;
                    })
                    (record t { head = read64 w.memory h }))
                at
              ∙ run),
        v',
        λ q h o.
            same q (ground (arith, h, o)) (ground (arith, o))
            ∙ free_chunk_links v p q given_p h (λ z. ground (arith, o, z)),
        λ y o.
            frame y (λ c h. o c (ground (arith, h)))
            ∙ (free_chunk-IsPool v p given_p).1 y (o p (ground arith)),
      )

  -- The count of the free blocks ends.
  count_free-Chain :
      (l : List Ptr) (fuel : ℕ) (m : Memory) (f : Ptr)
      → Chain (read64 m) f l
      → length l < suc fuel
      → count_free os false fuel m f ≡ some (length l)
  unfolding count_free
  count_free-Chain [] zero m f c enough = rw c refl
  count_free-Chain [] (suc fuel) m f c enough = rw c refl
  count_free-Chain (p ∷ l) zero m f c enough = absurd (omega arith)
  count_free-Chain (p ∷ l) (suc fuel) m f (at, ne, new, rest) enough =
      let more : (f == null) ≡ false = ground arith in
      let next : read64 m f ≡ read64 m p = ap (read64 m) at in
      rw (more, count_free, next, count_free-Chain l fuel m (read64 m p) rest (omega arith))
        (ap some (omega arith))

  -- The end of a thread whose chunks `cs` were given out by a well-formed global pool that is still
  -- alive, and whose free blocks are `fl`: with fuel for each of both, `deinit` counts the free
  -- blocks and hands every chunk back, once, so that they stand in front of the global pool's free
  -- list and are no longer given out; the thread's pool has no chunk left, and memory changes in the
  -- first eight bytes of these chunks alone.
  pub deinit-IsPool :
      (cs fl : List Ptr) (fuel : ℕ) (w : World os) (t : TlsPool) (n : ℕ) (l : List Ptr)
      (given : Ptr → Bool)
      → IsPool w.memory w.global n l given
      → Chain (read64 w.memory) t.head cs
      → ((c : Ptr) → has c cs ≡ true → given c ≡ true)
      → length cs < suc fuel
      → Chain (read64 w.memory) t.free fl
      → length fl < suc fuel
      → (w' : World os) × (deinit os false fuel true w t ≡ some (w', record t { head = null }))
        × IsPool w'.memory w'.global n (reverse_aux cs l) (without given cs)
        × ((q : Ptr) → given q ≡ true → has q cs ≡ false → read64 w'.memory q ≡ read64 w.memory q)
        × ((y : ℕ)
            → ((c : Ptr) → has c cs ≡ true → (y < c) ⊎ (c + 8 ≤ y))
            → w'.memory y ≡ w.memory y)
  unfolding deinit
  deinit-IsPool cs fl fuel w t n l given v c own enough free enough' =
      let (w', run, v', same, frame) = free_chunks_lem cs fuel w t n l given v c own enough in
      (
        w',
        rw (count_free-Chain fl fuel w.memory t.free free enough') (ap some run),
        v',
        same,
        frame,
      )
