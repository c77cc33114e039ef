-- ===== src/Process/Allocate.antt =====
-- `alloc` of one thread's pools among those of all threads, for what is no larger than the largest
-- block.
use np_alloc.Prelude.{
  ℕ, ◌+◌, ◌*◌, ◌^◌, ◌≤◌, ◌<◌, ◌≡◌, ◌≢◌, ◌==◌, refl, ap, sym, subst, ◌∙◌, false, List, Option, none,
  some, length, set, arith, get_elem?, inl, inr, Bool-cases, ==_iff,
}
use np_alloc.Memory.{Memory}
use np_alloc.LfStack.{Ptr, update}
use np_alloc.Mmap.{Os}
use np_alloc.Mmap.Chunks.{mib}
use np_alloc.TlsPsPool.{TlsPool, World, with_memory}
use np_alloc.ThreadLocalPool.{ThreadPool, stamp}
use np_alloc.ThreadLocalPool.Checks.{stamp-Fenced, stamp_frame}
use np_alloc.Allocator.{Books, IsAllocator}
use np_alloc.Allocator.Layout.{Outside, IsBlock-inside, chunk_placed}
use np_alloc.Allocator.Moves.{written-IsAllocator}
use np_alloc.Allocator.Ways.{Serves, update_at}
use np_alloc.Process.{number, IsHeld, IsProcess}
use np_alloc.Process.Table.{update-IsThread}
use np_alloc.Process.Held.{IsHeld-whole, live_low}

-- The bytes that the program has asked for, at all blocks, stay what they are.
abbrev pub KeepsAsked : (Ptr → Option ℕ) → Memory → Memory → Type 0
KeepsAsked asked m m' = (q n y : ℕ) → asked q ≡ some n → q + 48 ≤ y → y < q + 48 + n → m' y ≡ m y

module _ (os : Os) (sizes : List ℕ) (table : ℕ → Option ℕ) (max : ℕ) where
  module _ (w : World os) (threads : ℕ → ThreadPool) (asked : Ptr → Option ℕ) (pools : ℕ → TlsPool)
      (b : Books) (v : IsProcess os sizes table max w threads asked pools b) where
    -- A block that the program uses is in use.
    pub asked_live : (q n : ℕ) → asked q ≡ some n → b.live q ≢ 0
    asked_live q n e z = omega (arith, (v.held q n e).fits, z)

    pub unused_asked : (q : Ptr) → b.live q ≡ 0 → asked q ≡ none
    unused_asked q z = go (asked q) refl
      where
        go : (x : Option ℕ) → asked q ≡ x → asked q ≡ none
        go none e = e
        go (some n) e = absurd (asked_live q n e z)

    -- What is left to show once the pool has served the block `p`.
    module _ (k bytes file line thread_id : ℕ) (small : bytes + 64 ≤ max) (i size : ℕ)
        (mapped : table (bytes + 64) ≡ some i) (at : get_elem? sizes i ≡ some size)
        (fits : bytes + 64 ≤ size) (p : Ptr) (w' : World os) (t' : TlsPool)
        (serves : Serves os w pools b (number (length sizes) k i) (p, w', t')) where
      abbrev number_i : ℕ
      number_i = number (length sizes) k i

      abbrev stamped : World os
      stamped = with_memory w' (stamp w'.memory p bytes file line thread_id)

      sized : (pools number_i).alloc_size ≡ size
      sized = ((v.thread k).pool i size at).1

      b' : Books
      b' = serves.4.0

      v' : IsAllocator w'.memory w'.global (update pools number_i t') serves.4.0
      v' = serves.4.1

      live_p : serves.4.0.live p ≡ size
      live_p = ap (λ l. l p) serves.4.2 ∙ update_at b.live p (pools number_i).alloc_size ∙ sized

      live_other : (q : Ptr) → (p == q) ≡ false → serves.4.0.live q ≡ b.live q
      live_other q ne = ap (λ l. l q) serves.4.2 ∙ rw ne refl

      some_p : serves.4.0.live p ≢ 0
      some_p z = omega (arith, live_p, z, fits)

      room : p + 64 + bytes < 2 ^ 64
      room = omega (arith, live_low v' p some_p, live_p, fits)

      written :
          IsAllocator stamped.memory stamped.global (update pools number_i t') serves.4.0
          × ((q y : ℕ) → q ≢ p → q ≤ y → y < q + serves.4.0.live q → stamped.memory y ≡ w'.memory y)
      written = written-IsAllocator v' p stamped.memory some_p λ y out.
          stamp_frame w'.memory p bytes file line thread_id y room
            (omega (arith, out, live_p, fits))

      -- The block lies in the reservation, which stays where it is.
      pub placed : (w.global.ptr ≤ p) × (p + 64 + bytes ≤ w.global.ptr + 4096 * mib)
      placed =
          let k = v'.used p some_p in
          omega (
            arith,
            IsBlock-inside v' (serves.4.0.live p) p k,
            chunk_placed v' k.0 k.1,
            serves.5,
            live_p,
            fits,
          )

      pub stamped-Outside : Outside w.global.ptr w.memory stamped.memory
      stamped-Outside y out =
          stamp_frame w'.memory p bytes file line thread_id y room (omega (arith, out, placed))
          ∙ serves.6 y out

      -- Another block that was in use keeps all its bytes.
      kept : (q y : ℕ) → (p == q) ≡ false → q ≤ y → y < q + b.live q → stamped.memory y ≡ w.memory y
      kept q y ne lo hi =
          written.1 q y (λ z. ground (arith, z, ne)) lo (omega (arith, hi, live_other q ne))
          ∙ serves.3 q y lo hi

      other : (q n : ℕ) → asked q ≡ some n → (p == q) ≡ false
      other q n e = elim (Bool-cases (p == q)) [
        | inl y ↦ absurd (asked_live q n e (subst (λ x. b.live x ≡ 0) ((==_iff p q).0 y) serves.1))
        | inr f ↦ f
      ]

      new-IsHeld : IsHeld sizes table max stamped.memory serves.4.0.live p bytes
      new-IsHeld =
          let (header, fences) = stamp-Fenced w'.memory p bytes file line thread_id room in
          record {
            index = i;
            mapped = mapped;
            sized = at ∙ ap some (sym live_p);
            fits = omega (arith, live_p, fits);
            small = small;
            header = header;
            fences = fences;
          }

      pub stamped-IsProcess :
          IsProcess os sizes table max stamped
            (update threads k (record (threads k) { tls_pool = set (threads k).tls_pool i t' }))
            (update asked p (some bytes))
            (update pools number_i t')
            serves.4.0
          × KeepsAsked asked w.memory stamped.memory
      stamped-IsProcess = (
        record {
          tabled = v.tabled;
          stands = written.0;
          thread = update-IsThread sizes table max pools threads k i size t' at serves.0 v.thread;
          unused = λ h e. elim (Bool-cases (p == h)) [
            | inl y ↦ absurd (ground (arith, e, y))
            | inr f ↦
                let e' : asked h ≡ none = ground (arith, e, f) in live_other h f ∙ v.unused h e'
          ];
          held = λ h n e. elim (Bool-cases (p == h)) [
            | inl y ↦
                let n' : bytes ≡ n = ground (arith, e, y) in
                subst (λ x. IsHeld sizes table max stamped.memory serves.4.0.live x n)
                  ((==_iff p h).0 y)
                  (subst (λ x. IsHeld sizes table max stamped.memory serves.4.0.live p x) n'
                    new-IsHeld)
            | inr f ↦
                let e' : asked h ≡ some n = ground (arith, e, f) in
                IsHeld-whole stamped.memory serves.4.0.live (v.held h n e') (live_other h f)
                  (λ y lo hi. kept h y f lo hi)
          ];
        },
        λ q n y e lo hi.
            kept q y (other q n e) (omega (arith, lo)) (omega (arith, hi, (v.held q n e).fits)),
      )
