-- ===== src/LfStack/Report.antt =====
-- `debug_free_list` of src/np_lf_stack.h: `for_each` with a function that prints.
use np_alloc.Prelude.{
  bit_and, ◌^◌, ◌-◌, arith, ℕ, zero, suc, ◌≡◌, ◌==◌, refl, Bool, true, false, [], ◌++◌, length,
  Text, codes, Show, if◌then◌else◌, Bool-cases, inl, inr,
}
use np_alloc.LfStack.{Ptr, null, update, Shared, Pc, start_for_each, walking, access}
use np_alloc.LfStack.Solo.{finished, solo, for_each}

module _ (show : Show) where
  -- One call of the function, `c` calls after the first. `std::hex` stays in force, so that from the
  -- second line on `c` is printed in base 16 too.
  abbrev pub line : (hex : Bool) → (c : ℕ) → (ptr next : Ptr) → Text
  line hex c ptr next =
      codes "\t["
      ++ show (if c == 0 then hex else true) 0 c
      ++ codes "] "
      ++ codes "head: "
      ++ show true 10 ptr
      ++ codes ", next: "
      ++ show true 10 next
      ++ codes "]\n"

  -- `fun(ptr)` at the top of the loop of `for_each`.
  abbrev pub printed : (hex : Bool) → Shared → Pc → Text
  printed hex m (walking ptr visited) =
      if ptr == null then [] else line hex (length visited) ptr (m.next ptr)
  printed hex m _ = []

  -- `fuel` accesses of `for_each`, with what they print.
  unfoldable pub print_run : (fuel : ℕ) → (hex : Bool) → Shared → Pc → Text × Shared × Pc
  print_run zero hex m p = ([], m, p)
  print_run (suc fuel) hex m p =
      let (m', p', e) = access true m p in
      let (out, m'', p'') = print_run fuel hex m' p' in
      elim (finished p) [ true ↦ ([], m, p) | false ↦ (printed hex m p ++ out, m'', p'') ]

  unfoldable pub debug_free_list : (fuel : ℕ) → (hex : Bool) → Shared → Text × Shared × Pc
  debug_free_list fuel hex m = print_run fuel hex m start_for_each

  print_run-solo :
      (fuel : ℕ) (hex : Bool) (m : Shared) (p : Pc)
      → ((print_run fuel hex m p).1, (print_run fuel hex m p).2) ≡ solo fuel m p
  unfolding print_run solo
  print_run-solo zero hex m p = refl
  print_run-solo (suc fuel) hex m p = elim (Bool-cases (finished p)) [
    | inl e ↦ rw (e, print_run, solo) refl
    | inr e ↦
        rw (e, print_run, solo) (print_run-solo fuel hex (access true m p).0 (access true m p).1)
  ]

  -- Printing changes nothing of what `for_each` does to the stack.
  pub debug_free_list-for_each :
      (fuel : ℕ) (hex : Bool) (m : Shared)
      → ((debug_free_list fuel hex m).1, (debug_free_list fuel hex m).2) ≡ for_each fuel m
  unfolding debug_free_list for_each
  debug_free_list-for_each fuel hex m = print_run-solo fuel hex m start_for_each

-- `get_next` and `set_next` of a node, which nothing calls.
unfoldable pub get_next : Shared → Ptr → Ptr
get_next m t = m.next t

unfoldable pub set_next : Shared → (t next_ptr : Ptr) → Shared
set_next m t next_ptr = record m { next = update m.next t next_ptr }

-- `tagged_ptr`: the pointer without what lies above its 64 bits.
unfoldable pub tagged_ptr : ℕ → Ptr
tagged_ptr p = bit_and p (2 ^ 64 - 1)

-- The node whose `next` is set has the new one, and the others keep theirs.
pub get_next-set_next :
    (m : Shared) (t next_ptr u : Ptr)
    → get_next (set_next m t next_ptr) u ≡ (if t == u then next_ptr else get_next m u)
unfolding get_next set_next
get_next-set_next m t next_ptr u = ground arith
