-- ===== src/GlobalPool/Create.antt =====
-- What the constructor of the global pool achieves.
use np_alloc.Prelude.{
  ℕ, zero, suc, ◌+◌, ◌*◌, ◌/◌, ◌^◌, ◌≤◌, ◌<◌, ◌≡◌, ◌==◌, ◌⊎◌, inl, inr, refl, ap, ◌∙◌, true, false,
  Option, none, some, leb, arith, Bool-cases,
}
use native.Mathlib.Nat.{pow-suc}
use np_alloc.Mmap.{Mmap, Os, create, reserve, default_whole_chunk_size}
use np_alloc.Mmap.Chunks.{mib}
use np_alloc.Mmap.Reserve.{LowMaps, Tries, Reserves, reserved, reserve-Reserves}
use np_alloc.GlobalPool.{GlobalPool, fall_back, construct}

-- The calls of `reserve` for `size`, half of it, and so on: the first that succeeds, at an address
-- that `mmap` gives, or none down to 64 MB.
pub data Settles (os : Os) : (size : ℕ) → os.State → Option (ℕ × ℕ) → os.State → Type 0 where
  gave_up : {size : ℕ} {s : os.State} → size < 64 * mib → Settles os size s none s
  smaller :
      {size : ℕ} {s s' s'' : os.State} {r : Option (ℕ × ℕ)}
      → 64 * mib ≤ size
      → Tries os size 16 0 s none s'
      → Settles os (size / 2) s' r s''
      → Settles os size s r s''
  took :
      {size : ℕ} {s s' : os.State} (v : ℕ)
      → 64 * mib ≤ size
      → Tries os size 16 0 s (some v) s'
      → Settles os size s (some (v, size)) s'

-- Every size is refused and nothing is reserved, or the first size that is not is reserved, and no
-- chunk is made yet.
abbrev Settled : (os : Os) (size : ℕ) → os.State → GlobalPool × os.State → Type 0
Settled os size s (p, s') =
    ((p ≡ create os.page_size) × Settles os size s none s')
    ⊎ ((v z : ℕ) × (p ≡ reserved (create os.page_size) v z)
        × (0 < v)
        × (v + 4097 * mib < 2 ^ 64)
        × (64 * mib ≤ z)
        × (z ≤ size)
        × Settles os size s (some (v, z)) s')

abbrev pub Outcome : (os : Os) → os.State → GlobalPool × os.State → Type 0
Outcome os s result = Settled os (4096 * mib) s result

after_smaller :
    (os : Os) (size : ℕ) (s s' : os.State) (q : GlobalPool × os.State)
    → 64 * mib ≤ size
    → Tries os size 16 0 s none s'
    → Settled os (size / 2) s' q
    → Settled os size s q
after_smaller os size s s' q large tries (inl (new, rest)) = inl (new, smaller large tries rest)
after_smaller os size s s' q large tries (inr (v, z, at, pos, room, lo, hi, rest)) =
    inr (v, z, at, pos, room, lo, omega arith, smaller large tries rest)

module _ (os : Os) (low : LowMaps os) where
  fall_back-Settled :
      (fuel : ℕ) (p : GlobalPool) (s : os.State) (size : ℕ)
      → p ≡ create os.page_size
      → size < 64 * mib * 2 ^ fuel
      → Settled os size s (fall_back os fuel p s size)
  unfolding fall_back
  fall_back-Settled zero p s size new le = inl (new, gave_up (omega arith))
  fall_back-Settled (suc fuel) p s size new le = elim (Bool-cases (leb (64 * mib) size)) [
    | inr small ↦ rw (small, fall_back) (inl (new, gave_up (ground (arith, small))))
    | inl large ↦
        after
          (λ e small.
            fall_back-Settled fuel (reserve os p s size).1 (reserve os p s size).2 (size / 2) e
              small)
          (reserve-Reserves os low p s size (rw new (unfold create in refl))) large
          (ground (arith, large))
  ]
    where
      after :
          ((reserve os p s size).1 ≡ create os.page_size
            → size / 2 < 64 * mib * 2 ^ fuel
            → Settled os
                (size / 2)
                (reserve os p s size).2
                (fall_back os fuel (reserve os p s size).1 (reserve os p s size).2 (size / 2)))
          → Reserves os p s size (reserve os p s size)
          → leb (64 * mib) size ≡ true
          → 64 * mib ≤ size
          → Settled os size s (fall_back os (suc fuel) p s size)
      after next (inl (z, e, tries)) large room' =
          let refused : ((reserve os p s size).0 == 0) ≡ true = ground (arith, z) in
          rw (large, refused, fall_back)
            (after_smaller os size s (reserve os p s size).2 _ room' tries
              (next (e ∙ new) (omega (arith, le, pow-suc 2 fuel))))
      after next (inr (v, pos, room, e, at, tries)) large room' =
          let done : ((reserve os p s size).0 == 0) ≡ false = ground (arith, e) in
          rw (large, done, fall_back)
            (inr (
              v,
              size,
              at ∙ ap (λ (x : Mmap). reserved x v size) new,
              pos,
              room,
              room',
              omega arith,
              took v room' tries,
            ))

  -- Where every address that `mmap` gives has room for all chunks below the end of the address
  -- space: the constructor asks for 4 GB and then for half as much each time, down to 64 MB. It
  -- leaves a pool with no address space, and `mmap` refuses every one of these sizes in all sixteen
  -- attempts; or an empty pool of chunks in a reservation of the first size that `mmap` does not
  -- refuse, at the address that it gives.
  pub construct-Outcome : (s : os.State) → Outcome os s (construct os s)
  unfolding construct
  construct-Outcome s = after (
      reserve-Reserves os low (create os.page_size) s default_whole_chunk_size
        (unfold create in refl))
    where
      first : ℕ × GlobalPool × os.State
      first = reserve os (create os.page_size) s default_whole_chunk_size

      after :
          Reserves os (create os.page_size) s default_whole_chunk_size first
          → Outcome os s (construct os s)
      after (inl (z, e, tries)) =
          let refused : (first.0 == 0) ≡ true = ground (arith, z) in
          rw (refused, construct)
            (after_smaller os (4096 * mib) s first.2 _ (omega arith) tries
              (fall_back-Settled 7 first.1 first.2 (default_whole_chunk_size / 2) e (omega arith)))
      after (inr (v, pos, room, e, at, tries)) =
          let done : (first.0 == 0) ≡ false = ground (arith, e) in
          rw (done, construct)
            (inr
              (v, 4096 * mib, at, pos, room, omega arith, omega arith, took v (omega arith) tries))

-- The loop over smaller sizes ends by its test: with the fuel `f` where `size < 64 MB * 2 ^ f`, more
-- fuel changes nothing.
pub fall_back_fuel :
    (os : Os) (f g : ℕ) (p : GlobalPool) (s : os.State) (size : ℕ)
    → size < 64 * mib * 2 ^ f
    → size < 64 * mib * 2 ^ g
    → fall_back os (suc f) p s size ≡ fall_back os (suc g) p s size
unfolding fall_back
fall_back_fuel os zero g p s size hf hg =
    let small : leb (64 * mib) size ≡ false = ground arith in rw (small, fall_back)
fall_back_fuel os (suc f) zero p s size hf hg =
    let small : leb (64 * mib) size ≡ false = ground arith in rw (small, fall_back)
fall_back_fuel os (suc f) (suc g) p s size hf hg =
    let r = reserve os p s size in
    let rest =
      fall_back_fuel os f g r.1 r.2 (size / 2) (omega (arith, pow-suc 2 f))
        (omega (arith, pow-suc 2 g)) in
    elim (Bool-cases (leb (64 * mib) size)) [
      | inr small ↦ rw (small, fall_back)
      | inl large ↦ elim (Bool-cases (r.0 == 0)) [
        | inl failed ↦ rw (large, failed, fall_back) rest
        | inr done ↦ rw (large, done, fall_back)
      ]
    ]
