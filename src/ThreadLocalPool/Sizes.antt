-- ===== src/ThreadLocalPool/Sizes.antt =====
-- The list of block sizes that `get_alloc_size_list` makes.
use np_alloc.Prelude.{ℕ, suc, ◌≡◌, refl, Bool, true, false, List, [], ◌∷◌, some}
use np_alloc.Mmap.{ok}
use np_alloc.ThreadLocalPool.{get_alloc_size_list, size_rows, size_row}

-- The sizes up to 8256: four of 64 bytes apart, then four for each doubling.
abbrev pub sizes : List ℕ
sizes =
    64 ∷ 128 ∷ 192 ∷ 256 ∷ 320 ∷ 384 ∷ 448 ∷ 512 ∷ 576 ∷ 704 ∷ 832 ∷ 960 ∷ 1088 ∷ 1344 ∷ 1600 ∷ 1856
    ∷ 2112 ∷ 2624 ∷ 3136 ∷ 3648 ∷ 4160 ∷ 5184 ∷ 6208 ∷ 7232 ∷ 8256 ∷ []

-- With fuel for six rounds of the outer loop or more, `get_alloc_size_list` returns the 25 sizes
-- of `sizes`, and its assertion holds.
pub get_alloc_size_list_lem :
    (fuel : ℕ) (ndebug : Bool)
    → get_alloc_size_list (suc (suc (suc (suc (suc (suc fuel)))))) ndebug ≡ some (ok sizes)
unfolding get_alloc_size_list size_rows size_row
get_alloc_size_list_lem fuel true = refl
get_alloc_size_list_lem fuel false = refl
