-- ===== src/Mmap/Report.antt =====
-- `debug_as_string` of src/np_mmap.cpp, the counters that it shows, and `np_debug_print`, which
-- prints it for the global pool.
use np_alloc.Prelude.{
  ℕ, ◌+◌, ◌-◌, ◌*◌, ◌%◌, ◌^◌, ◌≤◌, ◌≡◌, leb, refl, Bool, true, false, [], ◌∷◌, ◌++◌, length, max,
  Text, codes, Show, Option, none, some, if◌then◌else◌, replicate, length-replicate, arith,
  Bool-cases, inl, inr,
}
use np_alloc.Memory.{Memory}
use np_alloc.LfStack.{Shared, Pc}
use np_alloc.LfStack.Report.{debug_free_list as print_free_list}
use np_alloc.LfStack.Solo.{count_free_list}
use np_alloc.Mmap.{Mmap, Result, ok, ◌>>=◌, ◌>>◌, assert, default_chunk_count, free_list}

unfoldable pub get_chunk_size : Mmap → ℕ
get_chunk_size mm = mm.chunk_size

unfoldable pub get_chunk_count : ℕ
get_chunk_count = default_chunk_count

unfoldable pub get_total_allocated : Mmap → ℕ
get_total_allocated mm = mm.perf_alloc

-- `count_free_list` of the free list; `fuel` bounds its accesses.
unfoldable pub count_free : (fuel : ℕ) → Memory → Mmap → Option ℕ
count_free fuel m mm = count_free_list fuel (free_list m mm)

-- `debug_free_list` of the free list; `hex` is the base that the stream is in.
unfoldable pub debug_free_list :
    (show : Show) (fuel : ℕ) (hex : Bool) → Memory → Mmap → Text × Shared × Pc
debug_free_list show fuel hex m mm = print_free_list show fuel hex (free_list m mm)

-- `fn_padding_space`: the end of a row of 64 spaces, behind the text.
unfoldable pub padding_space : (ndebug : Bool) → Text → (min_size : ℕ) → Result Text
padding_space ndebug s min_size =
    if leb min_size (length s)
    then ok s
    else (assert ndebug (leb (min_size - length s) 64)
        >> ok (s ++ replicate (min_size - length s) b' '))

module _ (show : Show) (ndebug : Bool) where
  unfoldable pub row : Text → (n : ℕ) → Text → Result Text
  row name n unit = do
    padded ← padding_space ndebug name 20
    ok (codes "\t " ++ padded ++ codes ": " ++ show false 0 n ++ unit)

  -- With `free` nodes in the free list.
  unfoldable pub report : Mmap → (free : ℕ) → Result Text
  report mm free = do
    total ←
        row (codes "total_size") (get_chunk_count * get_chunk_size mm % 2 ^ 64) (codes " bytes \n")
    chunk ← row (codes "chunk_size") (get_chunk_size mm) (codes " bytes \n")
    alloc ← row (codes "perf_alloc") mm.perf_alloc (codes " times \n")
    dealloc ← row (codes "perf_dealloc") mm.perf_dealloc (codes " times \n")
    from_free ← row (codes "perf_alloc_from_free") mm.perf_alloc_from_free (codes " times \n")
    list ← row (codes "__free_list_count") free (codes " units \n")
    ok (codes "mmap {\n" ++ total ++ chunk ++ alloc ++ dealloc ++ from_free ++ list ++ codes "}\n")

  unfoldable pub debug_as_string : (fuel : ℕ) → Memory → Mmap → Option (Result Text)
  debug_as_string fuel m mm = elim (count_free fuel m mm) [
    | none ↦ none
    | some free ↦ some (report mm free)
  ]

length-append : (s t : Text) → length (s ++ t) ≡ length s + length t
length-append [] t = omega arith
length-append (c ∷ s) t = ground (arith, length-append s t)

-- A text of at least `min_size` characters stays as it is; a shorter one gets that length, unless
-- it lacks more than 64, which an assertion stops.
pub padding_space_lem :
    (s : Text) (min_size : ℕ)
    → min_size ≤ length s + 64
    → (t : Text) × (padding_space false s min_size ≡ ok t) × (length t ≡ max (length s) min_size)
unfolding padding_space
padding_space_lem s min_size fits = elim (Bool-cases (leb min_size (length s))) [
  | inl long ↦ (s, rw long refl, ground (arith, long))
  | inr short ↦
      let few : leb (min_size - length s) 64 ≡ true = ground arith in
      (
        s ++ replicate (min_size - length s) b' ',
        rw (short, few) refl,
        ground (
          arith,
          short,
          length-append s (replicate (min_size - length s) b' '),
          length-replicate {A = ℕ} (min_size - length s) b' ',
        ),
      )
]
