-- ===== src/ThreadLocalPool/Fence.antt =====
-- The header and the fences around a block: what `alloc` stores and what `dealloc` tests.
use np_alloc.Prelude.{ℕ, ◌+◌, ◌%◌, ◌^◌, ◌<◌, ◌≤◌, ◌≡◌, arith, ◌∙◌, ap, ◌⊎◌}
use np_alloc.Memory.{
  Memory, read64, write64, write16, read64-write64, read64-write64_apart, read64-write16_apart,
  write64-frame, write16-frame, IsBytes, write64-IsBytes, write16-IsBytes,
}
use np_alloc.ThreadLocalPool.{stamp, post_pad, header_size, memory_fence_padding}

-- The block has room in the address space for the header, the fences and the bytes between.
module _ (m : Memory) (h bytes file line thread_id : ℕ) (room : h + 64 + bytes < 2 ^ 64) where
  abbrev header : Memory
  header =
      write16 (write64 (write16 (write64 m h bytes) (h + 8) line) (h + 16) file) (h + 10) thread_id

  abbrev post : ℕ
  post = h + 48 + bytes

  abbrev pre : Memory
  pre =
      write64 (write64 header (h + 32) (memory_fence_padding 0)) (h + 32 + 8)
        (memory_fence_padding 1)

  abbrev pub stamped : Memory
  stamped = write64 (write64 pre post (memory_fence_padding 2)) (post + 8) (memory_fence_padding 3)

  header_sized : read64 header h ≡ bytes
  header_sized =
      read64-write16_apart _ h (h + 10) thread_id (omega arith)
      ∙ read64-write64_apart _ h (h + 16) file (omega arith)
      ∙ read64-write16_apart _ h (h + 8) line (omega arith)
      ∙ read64-write64 m h bytes (omega arith)

  pub stamp_eq : stamp m h bytes file line thread_id ≡ stamped
  unfolding stamp post_pad header_size
  stamp_eq =
      let at : (h + 32 + 16 + read64 header h) % 2 ^ 64 ≡ post = omega (arith, header_sized) in
      ap (λ q. write64 (write64 pre q (memory_fence_padding 2)) (q + 8) (memory_fence_padding 3)) at

  -- What the words of the header and of the fences hold.
  pub stamped_words :
      (read64 stamped h ≡ bytes)
      × (read64 stamped (h + 32) ≡ memory_fence_padding 0)
      × (read64 stamped (h + 32 + 8) ≡ memory_fence_padding 1)
      × (read64 stamped post ≡ memory_fence_padding 2)
      × (read64 stamped (post + 8) ≡ memory_fence_padding 3)
  stamped_words = (
    through h (omega arith) ∙ header_sized,
    read64-write64_apart _ (h + 32) (post + 8) _ (omega arith)
        ∙ read64-write64_apart _ (h + 32) post _ (omega arith)
        ∙ read64-write64_apart _ (h + 32) (h + 32 + 8) _ (omega arith)
        ∙ read64-write64 _ (h + 32) (memory_fence_padding 0) (omega arith),
    read64-write64_apart _ (h + 32 + 8) (post + 8) _ (omega arith)
        ∙ read64-write64_apart _ (h + 32 + 8) post _ (omega arith)
        ∙ read64-write64 _ (h + 32 + 8) (memory_fence_padding 1) (omega arith),
    read64-write64_apart _ post (post + 8) _ (omega arith)
        ∙ read64-write64 _ post (memory_fence_padding 2) (omega arith),
    read64-write64 _ (post + 8) (memory_fence_padding 3) (omega arith),
  )
    where
      through : (a : ℕ) → a + 8 ≤ h + 32 → read64 stamped a ≡ read64 header a
      through a le =
          read64-write64_apart _ a (post + 8) _ (omega arith)
          ∙ read64-write64_apart _ a post _ (omega arith)
          ∙ read64-write64_apart _ a (h + 32 + 8) _ (omega arith)
          ∙ read64-write64_apart _ a (h + 32) _ (omega arith)

  -- The stores reach only the header, and the sixteen bytes on each side of the bytes.
  pub stamped_frame :
      (x : ℕ) → (x < h) ⊎ ((h + 48 ≤ x) × (x < post)) ⊎ (post + 16 ≤ x) → stamped x ≡ m x
  stamped_frame x out =
      write64-frame _ (post + 8) _ x (omega arith)
      ∙ write64-frame _ post _ x (omega arith)
      ∙ write64-frame _ (h + 32 + 8) _ x (omega arith)
      ∙ write64-frame _ (h + 32) _ x (omega arith)
      ∙ write16-frame _ (h + 10) _ x (omega arith)
      ∙ write64-frame _ (h + 16) _ x (omega arith)
      ∙ write16-frame _ (h + 8) _ x (omega arith)
      ∙ write64-frame _ h _ x (omega arith)

  pub stamped-IsBytes : IsBytes m → IsBytes stamped
  stamped-IsBytes b = write64-IsBytes _ _ _ (
      write64-IsBytes _ _ _ (
        write64-IsBytes _ _ _ (
          write64-IsBytes _ _ _ (
            write16-IsBytes _ _ _
              (write64-IsBytes _ _ _ (write16-IsBytes _ _ _ (write64-IsBytes _ _ _ b)))))))
