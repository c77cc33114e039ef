-- ===== src/ThreadLocalPool/Align.antt =====
-- The alignment of what the program gets.
use np_alloc.Prelude.{ℕ, ◌*◌, ◌/◌, ◌%◌, ◌≡◌, ap, ◌∙◌, sym, true, List, arith, has}
use native.Mathlib.Nat.{mul_assoc}
use np_alloc.LfStack.{Ptr}
use np_alloc.TlsPsPool.Blocks.{Block}
use np_alloc.ThreadLocalPool.{user_pointer, header_size}

multiple : (j size : ℕ) → size % 64 ≡ 0 → (j * size) % 64 ≡ 0
multiple j size e =
    let whole : size ≡ size / 64 * 64 = omega arith in
    let moved : j * size ≡ j * (size / 64) * 64 =
      ap (λ s. j * s) whole ∙ sym (mul_assoc j (size / 64) 64) in
    omega arith

-- A block whose size is a multiple of 64, of a pool whose chunks begin at multiples of 64: what the
-- program gets, behind the header of the chunk, that of the block and the front fence, begins at a
-- multiple of 64.
pub user_pointer-Block :
    (cs : List Ptr) (k : Ptr → ℕ) (size p : ℕ)
    → size % 64 ≡ 0
    → ((c : Ptr) → has c cs ≡ true → c % 64 ≡ 0)
    → Block cs k size p
    → user_pointer p % 64 ≡ 0
unfolding user_pointer header_size
user_pointer-Block cs k size p unit start (c, h, j, lt, e) =
    omega (arith, multiple j size unit, start c h)
