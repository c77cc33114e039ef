-- ===== src/Mmap/Chunks.antt =====
-- The numbers of chunks; which chunks wait in the free list and which are in use.
use np_alloc.Prelude.{
  ℕ, ◌+◌, ◌*◌, ◌^◌, ◌≤◌, ◌<◌, ◌≡◌, ◌≢◌, ◌==◌, ◌⊎◌, inl, inr, refl, sym, ap, ◌∙◌, Bool, true, false,
  List, ◌∷◌, arith, has, dec_lt, Bool-cases, ==_iff,
}
use np_alloc.Memory.{Memory, read64, write64, read64-write64, read64-write64_apart, write64-frame}
use np_alloc.LfStack.{Ptr, null, update}
use np_alloc.LfStack.Chain.{Chain, Chain-frame, Chain-head}
use np_alloc.LfStack.Solo.{push_lem}
use np_alloc.Mmap.{Mmap, offset, ok, get_chunk_index, get_chunk_ptr, no_index, free_chunk}

abbrev pub mib : ℕ
mib = 2 ^ 20

-- Chunk number `i`.
abbrev pub chunk : Mmap → ℕ → ℕ
chunk mm i = mm.ptr + i * mib

-- A chunk size of 2 ^ 20, and a reservation that does not reach the end of the address space.
pub record IsPlaced (mm : Mmap) : Type 0 where
  pub base : 0 < mm.ptr
  pub room : mm.ptr + 4097 * mib < 2 ^ 64
  pub unit : mm.chunk_size ≡ mib

-- `n` chunks have been made; `l` waits in the free list and `given` is in use.
pub record IsPool (m : Memory) (mm : Mmap) (n : ℕ) (l : List Ptr) (given : Ptr → Bool)
    : Type 0 where
  pub placed : IsPlaced mm
  pub few : n ≤ 4096
  pub top : mm.head ≡ chunk mm n
  pub chain : Chain (read64 m) mm.free_head.ptr l
  pub free : (p : Ptr) → has p l ≡ true → (i : ℕ) × (i < n) × (p ≡ chunk mm i)
  pub used : (p : Ptr) → given p ≡ true → (i : ℕ) × (i < n) × (p ≡ chunk mm i)
  pub apart : (p : Ptr) → given p ≡ true → has p l ≡ false
  pub covered : (i : ℕ) → i < n → (has (chunk mm i) l ≡ true) ⊎ (given (chunk mm i) ≡ true)

offset-chunk : (mm : Mmap) (i : ℕ) → IsPlaced mm → i ≤ 4096 → offset (chunk mm i) mm.ptr ≡ i * mib
offset-chunk mm i at le = omega arith

pub index_of :
    (nd : Bool) (mm : Mmap) (i : ℕ)
    → IsPlaced mm
    → i ≤ 4096
    → get_chunk_index nd mm (chunk mm i) ≡ ok i
unfolding get_chunk_index
index_of nd mm i at le = rw (at.unit) (rw (offset-chunk mm i at le) (ground arith))

pub ptr_of :
    (nd : Bool) (mm : Mmap) (i : ℕ)
    → IsPlaced mm
    → i ≤ 4096
    → get_chunk_ptr nd mm i ≡ ok (chunk mm i)
unfolding get_chunk_ptr
ptr_of nd mm i at le = rw (at.unit) (ground arith)

-- The number and the address of a chunk determine each other, and an address in a chunk, but not
-- at its start, has no number.
pub get_chunk_index-ptr :
    (ndebug : Bool) (mm : Mmap) (i k : ℕ)
    → IsPlaced mm
    → i ≤ 4096
    → 0 < k
    → k < mib
    → (get_chunk_ptr ndebug mm i ≡ ok (chunk mm i))
      × (get_chunk_index ndebug mm (chunk mm i) ≡ ok i)
      × (get_chunk_index ndebug mm (chunk mm i + k) ≡ ok no_index)
get_chunk_index-ptr nd mm i k at le pos short =
    (ptr_of nd mm i at le, index_of nd mm i at le, inside)
  where
    off : offset (chunk mm i + k) mm.ptr ≡ i * mib + k
    off = omega arith

    inside : get_chunk_index nd mm (chunk mm i + k) ≡ ok no_index
    inside = unfold get_chunk_index in rw (at.unit) (rw off (ground arith))

-- Chunks are apart: two that overlap are one.
pub chunk_apart :
    (mm : Mmap) (p q i j : ℕ)
    → p ≡ chunk mm i
    → q ≡ chunk mm j
    → p ≢ q
    → (p + mib ≤ q) ⊎ (q + mib ≤ p)
chunk_apart mm p q i j e f ne = elim (dec_lt i j) [
  | yes lt ↦ inl (omega arith)
  | no ge ↦ inr (omega (arith, ne_index))
]
  where
    ne_index : i ≢ j
    ne_index h = ne (e ∙ ap (λ (x : ℕ). chunk mm x) h ∙ sym f)

module _ {m : Memory} {mm : Mmap} {n : ℕ} {l : List Ptr} {given : Ptr → Bool}
    (v : IsPool m mm n l given) where
  head_small : mm.free_head.ptr < 2 ^ 64
  head_small = elim (Bool-cases (mm.free_head.ptr == null)) [
    | inl z ↦ ground arith
    | inr live ↦
        let (i, lt, e) =
          v.free mm.free_head.ptr
            (Chain-head (read64 m) mm.free_head.ptr l v.chain (λ z. ground arith)) in
        omega (arith, v.few, v.placed.room)
  ]

  -- `free_chunk` puts a chunk that is in use in front of the free list. It writes to the first
  -- eight bytes of that chunk alone, and the rest of the list stays.
  pub free_chunk-IsPool :
      (p : Ptr)
      → given p ≡ true
      → IsPool (free_chunk m mm p).0 (free_chunk m mm p).1 n (p ∷ l) (update given p false)
        × ((x : ℕ) → (x < p) ⊎ (p + 8 ≤ x) → (free_chunk m mm p).0 x ≡ m x)
  unfolding free_chunk
  free_chunk-IsPool p own = rw push_lem (
    record {
      placed = record { base = v.placed.base; room = v.placed.room; unit = v.placed.unit };
      few = v.few;
      top = v.top;
      chain = (refl, live, v.apart p own, rw linked (Chain-frame (read64 m) _ _ l kept v.chain));
      free = λ q h. elim (Bool-cases (q == p)) [
        | inl e ↦ rw ((==_iff q p).0 e) (v.used p own)
        | inr e ↦ v.free q (ground arith)
      ];
      used = λ q h. v.used q (ground arith);
      apart = λ q h. ground (arith, v.apart q);
      covered = λ i lt. ground (arith, v.covered i lt);
    },
    λ x out. write64-frame m p (update (read64 m) p mm.free_head.ptr p) x out,
  )
    where
      live : p ≢ null
      live z = let (i, lt, e) = v.used p own in absurd (omega (arith, v.placed.base))

      value : update (read64 m) p mm.free_head.ptr p ≡ mm.free_head.ptr
      value = ground arith

      linked : read64 (write64 m p (update (read64 m) p mm.free_head.ptr p)) p ≡ mm.free_head.ptr
      linked = rw value (read64-write64 m p mm.free_head.ptr head_small)

      kept :
          (q : Ptr)
          → has q l ≡ true
          → read64 (write64 m p (update (read64 m) p mm.free_head.ptr p)) q ≡ read64 m q
      kept q h =
          let (i, lt, e) = v.free q h in
          let (j, lt', f) = v.used p own in
          let ne : q ≢ p = λ z. ground (arith, v.apart p own) in
          read64-write64_apart m q p _ (omega (arith, chunk_apart mm q p i j e f ne))
