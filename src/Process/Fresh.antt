-- ===== src/Process/Fresh.antt =====
-- One call of `np_alloc` or `np_free` in a process that is well formed.
use np_alloc.Prelude.{
  ℕ, ◌+◌, ◌*◌, ◌^◌, ◌≤◌, ◌<◌, ◌≡◌, ◌≢◌, ◌==◌, ◌⊎◌, refl, false, Option, none, some, arith, dec_le,
  inl, inr,
}
use np_alloc.Memory.{Memory}
use np_alloc.LfStack.{Ptr, null, update}
use np_alloc.Mmap.{Os, ok, aborted, fault}
use np_alloc.Mmap.Chunks.{mib}
use np_alloc.TlsPsPool.{TlsPool, World}
use np_alloc.TlsPsPool.Blocks.{Apart}
use np_alloc.ThreadLocalPool.{ThreadPool, Heap, alloc, np_free, user_pointer, header_size}
use np_alloc.ThreadLocalPool.Sizes.{sizes}
use np_alloc.Allocator.{Books}
use np_alloc.Allocator.Start.{exhausted}
use np_alloc.Allocator.Layout.{Same, live-Apart}
use np_alloc.Allocator.Supply.{Commits}
use np_alloc.Process.{IsProcess}
use np_alloc.Process.Allocate.{asked_live}
use np_alloc.Process.Calls.{Allocates, alloc-Stands}
use np_alloc.Process.Release.{np_free-Stands}
use np_alloc.Process.Large.{HeapLaws, IsLarge}
use np_alloc.Process.LargeCalls.{large_alloc, np_free-IsLarge, large-Apart, large_placed}
use np_alloc.Process.Writes.{in_reservation, user-Apart}
use np_alloc.Process.Runs.{State, IsStanding}

-- What the program has asked for at two blocks does not overlap.
asked-Apart :
    (os : Os) (table : ℕ → Option ℕ) (w : World os) (threads : ℕ → ThreadPool)
    (asked : Ptr → Option ℕ)
    → (pools : ℕ → TlsPool) × (b : Books) × IsProcess os sizes table 8256 w threads asked pools b
    → (p q n n' : ℕ) → asked p ≡ some n
    → asked q ≡ some n'
    → p ≢ q
    → Apart (user_pointer p) n (user_pointer q) n'
unfolding user_pointer header_size
asked-Apart os table w threads asked (pools, b, v) p q n n' e f ne =
    let live = asked_live os sizes table 8256 w threads asked pools b v in
    omega (
      arith,
      live-Apart v.stands p q (live p n e) (live q n' f) ne,
      (v.held p n e).fits,
      (v.held q n' f).fits,
    )

-- The program has `n` bytes at the block `p`, of a pool or of `malloc`.
abbrev pub Owns :
    {os : Os} {heap : Heap} {commits : Commits os} {base : ℕ} {laws : HeapLaws heap base}
    {table : ℕ → Option ℕ}
    → State os heap commits base laws sizes table 8256
    → (p n : ℕ) → Type 0
Owns s p n = (s.asked p ≡ some n) ⊎ (s.big p ≡ some n)

-- New bytes at the block `h` of a state: they overlap none that the program has, and those stay what
-- they are.
abbrev pub IsFresh :
    {os : Os} {heap : Heap} {commits : Commits os} {base : ℕ} {laws : HeapLaws heap base}
    {table : ℕ → Option ℕ}
    → State os heap commits base laws sizes table 8256
    → (h bytes : ℕ) → Memory
    → Type 0
IsFresh s h bytes m' =
    (q n : ℕ)
    → Owns s q n
    → Apart (user_pointer h) bytes (user_pointer q) n
      × ((y : ℕ) → user_pointer q ≤ y → y < user_pointer q + n → m' y ≡ s.world.memory y)

module _ (os : Os) (heap : Heap) (commits : Commits os) (v : ℕ) (laws : HeapLaws heap v)
    (table : ℕ → Option ℕ) (s : State os heap commits v laws sizes table 8256)
    (standing : IsStanding os heap commits v laws sizes table 8256 s) where
  -- Bytes from a pool lie in the reservation, and bytes from `malloc` do not.
  pool_inside :
      (q n : ℕ) → s.asked q ≡ some n → (v ≤ user_pointer q) × (user_pointer q + n ≤ v + 4096 * mib)
  pool_inside q n e =
      let (pools, b, l, p, has, large, at) = standing in
      omega (
        arith,
        in_reservation os heap commits v laws sizes table 8256 s.world s.threads s.asked pools b q n
            p e,
        at,
      )

  malloc_outside : (q n : ℕ) → s.big q ≡ some n → Apart (user_pointer q) n v (4096 * mib)
  malloc_outside q n e =
      let (pools, b, l, p, has, large, at) = standing in
      user-Apart q n v (large_placed os heap v 8256 laws s.world s.large s.big l has large q n e).0

  pub owned-Apart :
      (p q n n' : ℕ)
      → Owns s p n
      → Owns s q n'
      → p ≢ q
      → Apart (user_pointer p) n (user_pointer q) n'
  unfolding user_pointer header_size
  owned-Apart p q n n' (inl e) (inl f) ne =
      let (pools, b, l, k, has, large, at) = standing in
      asked-Apart os table s.world s.threads s.asked (pools, b, k) p q n n' e f ne
  owned-Apart p q n n' (inl e) (inr f) ne = omega (arith, pool_inside p n e, malloc_outside q n' f)
  owned-Apart p q n n' (inr e) (inl f) ne = omega (arith, malloc_outside p n e, pool_inside q n' f)
  owned-Apart p q n n' (inr e) (inr f) ne =
      let (pools, b, l, k, has, large, at) = standing in
      omega
        (arith, large-Apart os heap v 8256 laws s.world s.large s.big l has large p q n n' e f ne)

  pub small_IsFresh :
      (k h bytes : ℕ) (w : World os) (tp' : ThreadPool)
      → Allocates os heap commits sizes table 8256 s.world s.large s.threads s.asked k bytes h w tp'
      → IsFresh s h bytes w.memory
  unfolding user_pointer header_size
  small_IsFresh k h bytes w tp' (new, some_h, stands, keeps, fixed, outside, from, to) q n (inl e) =
      let ne : (h == q) ≡ false = ground (arith, new, e) in
      let at : update s.asked h (some bytes) q ≡ some n = rw ne e in
      let self : update s.asked h (some bytes) h ≡ some bytes = ground arith in
      (
        asked-Apart os table w (update s.threads k tp') (update s.asked h (some bytes)) stands h q
            bytes n self at (λ z. ground (arith, z, ne)),
        λ y lo hi. keeps q n y e (omega (arith, lo)) (omega (arith, hi)),
      )
  small_IsFresh k h bytes w tp' (new, some_h, stands, keeps, fixed, outside, from, to) q n (inr e) =
      let (pools, b, l, p, has, large, at) = standing in
      (
        omega (arith, malloc_outside q n e, from, to, at),
        λ y lo hi. outside y (omega (arith, lo, hi, malloc_outside q n e, at)),
      )

  pub large_IsFresh :
      (h bytes : ℕ) (w : World os) (r' : heap.State) (l l' : Ptr → ℕ)
      → s.big h ≡ none
      → Apart h (bytes + 64) v (4096 * mib)
      → Same h (bytes + 64) s.world.memory w.memory
      → laws.Has r' l'
      → IsLarge 8256 w.memory (update s.big h (some bytes)) l'
      → IsFresh s h bytes w.memory
  unfolding user_pointer header_size
  large_IsFresh h bytes w r' l l' new out same has' large' q n (inl e) = (
    omega (arith, pool_inside q n e, out),
    λ y lo hi. same y (omega (arith, lo, hi, pool_inside q n e, out)),
  )
  large_IsFresh h bytes w r' l l' new out same has' large' q n (inr e) =
      let ne : (h == q) ≡ false = ground (arith, new, e) in
      let at : update s.big h (some bytes) q ≡ some n = rw ne e in
      let self : update s.big h (some bytes) h ≡ some bytes = ground arith in
      let far =
        large-Apart os heap v 8256 laws w r' (update s.big h (some bytes)) l' has' large' h q bytes
          n self at (λ z. ground (arith, z, ne)) in
      (omega (arith, far), λ y lo hi. same y (omega (arith, lo, hi, far)))

  pub alloc-IsFresh :
      (k bytes file line thread_id : ℕ)
      → bytes + 64 < 2 ^ 64
      → ((h : ℕ) × (w : World os) × (r' : heap.State) × (tp' : ThreadPool) × (alloc os heap false
              s.world s.large
              (s.threads k)
              bytes
              file
              line
              thread_id
            ≡ ok ((user_pointer h, w, r'), tp'))
          × IsFresh s h bytes w.memory)
        ⊎ ((bytes ≤ 8192)
            × (s.world.global.head ≡ s.world.global.ptr + 4096 * mib)
            × (s.world.global.free_head.ptr ≡ null)
            × (alloc os heap false s.world s.large (s.threads k) bytes file line thread_id
                ≡ aborted))
        ⊎ ((8192 < bytes)
            × ((heap.malloc s.large (bytes + 64)).0 ≡ null)
            × (alloc os heap false s.world s.large (s.threads k) bytes file line thread_id ≡ fault))
  alloc-IsFresh k bytes file line thread_id fits =
      let (pools, b, l, p, has, large, at) = standing in
      elim (dec_le (bytes + 64) 8256) [
        | yes small ↦
            elim (alloc-Stands os heap commits sizes table 8256 s.world s.large s.threads s.asked
              pools b p k bytes file line thread_id small) [
                | inr (full, empty, run) ↦
                    let (top, none_waits) = exhausted p.stands full empty in
                    inr (inl (omega (arith, small), top, none_waits, run))
                | inl (h, w, tp', run, allocated) ↦
                    inl (h, w, s.large, tp', run, small_IsFresh k h bytes w tp' allocated)
              ]
        | no above ↦
            elim (large_alloc os heap v 8256 laws s.world s.large s.big l has large (s.threads k)
              (p.thread k).same_max bytes file line thread_id (omega (arith, above)) fits) [
                | inr (dead, run) ↦ inr (inr (omega (arith, above), dead, run))
                | inl (h, w, r', run, (new, not_big, out, same, fixed, (l', has', large'))) ↦ inl (
                  h,
                  w,
                  r',
                  s.threads k,
                  run,
                  large_IsFresh h bytes w r' l l' not_big out same has' large',
                )
              ]
      ]

  pub free-Owns :
      (k h bytes : ℕ)
      → Owns s h bytes
      → (w : World os) × (r' : heap.State) × (tp' : ThreadPool) × (np_free os heap false s.world
            s.large
            (s.threads k)
            (user_pointer h)
          ≡ ok ((w, r'), tp'))
        × ((q n y : ℕ)
            → Owns s q n
            → q ≢ h
            → user_pointer q ≤ y
            → y < user_pointer q + n
            → w.memory y ≡ s.world.memory y)
  unfolding user_pointer header_size
  free-Owns k h bytes (inl e) =
      let (pools, b, l, p, has, large, at) = standing in
      let (w, tp', run, stands, keeps, fixed, outside) =
        np_free-Stands os heap commits sizes table 8256 s.world s.large s.threads s.asked pools b p
          k h bytes e in
      (
        w,
        s.large,
        tp',
        run,
        λ q n y o ne lo hi. elim o [
          | inl f ↦
              let other : (h == q) ≡ false = ground (arith, ne) in
              let still : update s.asked h none q ≡ some n = rw other f in
              keeps q n y still (omega (arith, lo)) (omega (arith, hi))
          | inr f ↦ outside y (omega (arith, lo, hi, malloc_outside q n f, at))
        ],
      )
  free-Owns k h bytes (inr e) =
      let (pools, b, l, p, has, large, at) = standing in
      let (run, has', large') =
        np_free-IsLarge os heap v 8256 laws s.world s.large s.big l has large (s.threads k)
          (p.thread k).same_max h bytes e in
      (s.world, heap.free s.large h, s.threads k, run, λ q n y o ne lo hi. refl)
