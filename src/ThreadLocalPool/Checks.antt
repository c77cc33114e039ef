-- ===== src/ThreadLocalPool/Checks.antt =====
-- What the fences show `dealloc`: that the program kept to its bytes, or that it did not.
use np_alloc.Prelude.{
  ℕ, ◌+◌, ◌-◌, ◌^◌, ◌<◌, ◌≤◌, ◌≡◌, ◌≢◌, refl, Bool, true, false, ◌==◌, arith, Bool-cases, inl, inr,
  ==_iff, ◌∙◌, ap, sym, ◌⊎◌, dec_lt,
}
use np_alloc.Memory.{Memory, read64, read64-frame, read64-injective, IsBytes}
use np_alloc.Mmap.{Os, ok, aborted, ◌>>=◌, assert}
use np_alloc.TlsPsPool.{World}
use np_alloc.ThreadLocalPool.{
  stamp, post_pad, header_size, check_fences, memory_fence_padding, whole_size, user_pointer, Heap,
  ThreadPool, dealloc, free_block, get_alloc_header,
}
use np_alloc.ThreadLocalPool.Fence.{
  stamp_eq, stamped_words, stamped_frame, stamped-IsBytes, stamped,
}

-- The bytes of the header's `size`, and those of the fences.
abbrev pub InSize : (h x : ℕ) → Type 0
InSize h x = (h ≤ x) × (x < h + 8)

abbrev pub InFence : (h bytes x : ℕ) → Type 0
InFence h bytes x = ((h + 32 ≤ x) × (x < h + 48)) ⊎ ((h + 48 + bytes ≤ x) × (x < h + 64 + bytes))

-- The stores of `alloc` leave alone every byte outside of the block, and the bytes that the
-- program gets.
pub stamp_frame :
    (m : Memory) (h bytes file line thread_id x : ℕ)
    → h + 64 + bytes < 2 ^ 64
    → (x < h) ⊎ ((h + 48 ≤ x) × (x < h + 48 + bytes)) ⊎ (h + 64 + bytes ≤ x)
    → stamp m h bytes file line thread_id x ≡ m x
stamp_frame m h bytes file line thread_id x room out =
    ap (λ (f : Memory). f x) (stamp_eq m h bytes file line thread_id room)
    ∙ stamped_frame m h bytes file line thread_id room x (omega arith)

assert_all :
    (a b c d : Bool)
    → ((assert false a >>= λ x. assert false b >>= λ y. assert false c >>= λ z. assert false d)
        ≡ aborted)
      ⊎ ((a ≡ true) × (b ≡ true) × (c ≡ true) × (d ≡ true))
assert_all true true true true = inr (refl, refl, refl, refl)
assert_all true true true false = inl refl
assert_all true true false d = inl refl
assert_all true false c d = inl refl
assert_all false b c d = inl refl

pub stamp-IsBytes :
    (m : Memory) (h bytes file line thread_id : ℕ)
    → h + 64 + bytes < 2 ^ 64
    → IsBytes m
    → IsBytes (stamp m h bytes file line thread_id)
stamp-IsBytes m h bytes file line thread_id room b x =
    rw (stamp_eq m h bytes file line thread_id room)
      (stamped-IsBytes m h bytes file line thread_id room b x)

-- The four words that the assertions read.
abbrev pub Fenced : Memory → (h bytes : ℕ) → Type 0
Fenced m h bytes =
    (read64 m (h + 32) ≡ memory_fence_padding 0)
    × (read64 m (h + 32 + 8) ≡ memory_fence_padding 1)
    × (read64 m (h + 48 + bytes) ≡ memory_fence_padding 2)
    × (read64 m (h + 48 + bytes + 8) ≡ memory_fence_padding 3)

post_pad_lem :
    (m : Memory) (h bytes : ℕ)
    → h + 64 + bytes < 2 ^ 64
    → read64 m h ≡ bytes
    → post_pad m h ≡ h + 48 + bytes
unfolding post_pad header_size
post_pad_lem m h bytes room e = rw e (omega arith)

passes :
    (ndebug : Bool) (m : Memory) (h bytes : ℕ)
    → h + 64 + bytes < 2 ^ 64
    → read64 m h ≡ bytes
    → Fenced m h bytes
    → check_fences ndebug m h ≡ ok tt
unfolding check_fences header_size
passes ndebug m h bytes room e (a, b, c, d) =
    rw (post_pad_lem m h bytes room e, a, b, c, d)
      (elim (Bool-cases ndebug) [ inl y ↦ rw y refl | inr n ↦ rw n refl ])

fails :
    (m : Memory) (h bytes : ℕ)
    → h + 64 + bytes < 2 ^ 64
    → read64 m h ≡ bytes
    → (check_fences false m h ≡ aborted) ⊎ Fenced m h bytes
unfolding check_fences header_size
fails m h bytes room e =
    rw (post_pad_lem m h bytes room e)
      (elim (assert_all (read64 m (h + 32) == memory_fence_padding 0)
        (read64 m (h + 32 + 8) == memory_fence_padding 1)
        (read64 m (h + 48 + bytes) == memory_fence_padding 2)
        (read64 m (h + 48 + bytes + 8) == memory_fence_padding 3)) [
          | inl stop ↦ inl stop
          | inr (a, b, c, d) ↦
              inr ((==_iff _ _).0 a, (==_iff _ _).0 b, (==_iff _ _).0 c, (==_iff _ _).0 d)
        ])

-- A memory with the same words has the same bytes.
same_bytes :
    (m m' : Memory) (h bytes x : ℕ)
    → IsBytes m
    → IsBytes m'
    → Fenced m h bytes
    → Fenced m' h bytes
    → InFence h bytes x
    → m' x ≡ m x
same_bytes m m' h bytes x b b' (e₀, e₁, e₂, e₃) (f₀, f₁, f₂, f₃) (inl low) =
    elim (dec_lt x (h + 32 + 8)) [
      | yes lt ↦ read64-injective m m' (h + 32) x b b' (f₀ ∙ sym e₀) (omega arith) (omega arith)
      | no ge ↦ read64-injective m m' (h + 32 + 8) x b b' (f₁ ∙ sym e₁) (omega arith) (omega arith)
    ]
same_bytes m m' h bytes x b b' (e₀, e₁, e₂, e₃) (f₀, f₁, f₂, f₃) (inr high) =
    elim (dec_lt x (h + 48 + bytes + 8)) [
      | yes lt ↦
          read64-injective m m' (h + 48 + bytes) x b b' (f₂ ∙ sym e₂) (omega arith) (omega arith)
      | no ge ↦
          read64-injective m m' (h + 48 + bytes + 8) x b b' (f₃ ∙ sym e₃) (omega arith)
            (omega arith)
    ]

-- A block that `alloc` has stamped, in a memory where the program has since changed one byte of a
-- fence or more, but not the size in the header: the assertions of `dealloc` stop the program.
pub overrun_detected :
    (m m' : Memory) (h bytes file line thread_id x : ℕ)
    → h + 64 + bytes < 2 ^ 64
    → IsBytes m
    → IsBytes m'
    → ((y : ℕ) → InSize h y → m' y ≡ stamp m h bytes file line thread_id y)
    → InFence h bytes x
    → m' x ≢ stamp m h bytes file line thread_id x
    → check_fences false m' h ≡ aborted
overrun_detected m m' h bytes file line thread_id x room b b' sized fence changed =
    let eq = stamp_eq m h bytes file line thread_id room in
    let (size, e₀, e₁, e₂, e₃) = stamped_words m h bytes file line thread_id room in
    let S = stamped m h bytes file line thread_id room in
    let size' : read64 m' h ≡ bytes =
      read64-frame S m' h (λ y lo hi. sized y (lo, hi) ∙ ap (λ (f : Memory). f y) eq) ∙ size in
    elim (fails m' h bytes room size') [
      | inl stop ↦ stop
      | inr words' ↦ absurd (
          changed (
            same_bytes S m' h bytes x (stamped-IsBytes m h bytes file line thread_id room b) b'
              (e₀, e₁, e₂, e₃) words' fence
            ∙ sym (ap (λ (f : Memory). f x) eq)))
    ]

-- `dealloc` reads the number of bytes from the header, and its assertions hold where the fences are
-- what they were.
pub dealloc-Fenced :
    (os : Os) (heap : Heap) (ndebug : Bool) (w : World os) (s : heap.State) (tp : ThreadPool)
    (h bytes : ℕ)
    → h + 64 + bytes < 2 ^ 64
    → read64 w.memory h ≡ bytes
    → Fenced w.memory h bytes
    → dealloc os heap ndebug w s tp (user_pointer h)
      ≡ free_block os heap ndebug w s tp h (whole_size bytes)
unfolding dealloc user_pointer get_alloc_header header_size
dealloc-Fenced os heap ndebug w s tp h bytes room size fenced =
    let back : h + 32 + 16 - 32 - 16 ≡ h = omega arith in
    rw (back, passes ndebug w.memory h bytes room size fenced, size) refl

-- What `alloc` stores.
pub stamp-Fenced :
    (m : Memory) (h bytes file line thread_id : ℕ)
    → h + 64 + bytes < 2 ^ 64
    → (read64 (stamp m h bytes file line thread_id) h ≡ bytes)
      × Fenced (stamp m h bytes file line thread_id) h bytes
stamp-Fenced m h bytes file line thread_id room =
    let (size, e₀, e₁, e₂, e₃) = stamped_words m h bytes file line thread_id room in
    rw (stamp_eq m h bytes file line thread_id room) (size, (e₀, e₁, e₂, e₃))

-- A block that `alloc` has stamped, in a memory where the size in the header and the fences are
-- untouched: `dealloc` of the program's pointer passes its assertions, and hands the block back
-- with the size for which `alloc` took it.
pub dealloc-stamp :
    (os : Os) (heap : Heap) (ndebug : Bool) (w : World os) (s : heap.State) (tp : ThreadPool)
    (m : Memory) (h bytes file line thread_id : ℕ)
    → h + 64 + bytes < 2 ^ 64
    → ((y : ℕ)
        → InSize h y ⊎ InFence h bytes y
        → w.memory y ≡ stamp m h bytes file line thread_id y)
    → dealloc os heap ndebug w s tp (user_pointer h)
      ≡ free_block os heap ndebug w s tp h (whole_size bytes)
dealloc-stamp os heap ndebug w s tp m h bytes file line thread_id room kept =
    let S = stamp m h bytes file line thread_id in
    let (size, (e₀, e₁, e₂, e₃)) = stamp-Fenced m h bytes file line thread_id room in
    let same : (a : ℕ)
        → ((y : ℕ) → a ≤ y → y < a + 8 → InSize h y ⊎ InFence h bytes y)
        → read64 w.memory a ≡ read64 S a =
      λ a within. read64-frame S w.memory a (λ y lo hi. kept y (within y lo hi)) in
    dealloc-Fenced os heap ndebug w s tp h bytes room (same h (λ y lo hi. inl (lo, hi)) ∙ size) (
      same (h + 32) (λ y lo hi. inr (omega arith)) ∙ e₀,
      same (h + 32 + 8) (λ y lo hi. inr (omega arith)) ∙ e₁,
      same (h + 48 + bytes) (λ y lo hi. inr (omega arith)) ∙ e₂,
      same (h + 48 + bytes + 8) (λ y lo hi. inr (omega arith)) ∙ e₃,
    )
