-- ===== src/Examples/Bits.antt =====
-- src/np_common.h and src/np_bitset.h on one word.
use np_alloc.Prelude.{ℕ, ◌+◌, ◌^◌, ◌≡◌, ◌==◌, ◌||◌, ◌&&◌, has, arith, List, some, ltb}
use np_alloc.Common.{clz, ctz, popcnt, clz32, ctz32, popcnt32, msvc, bit_counts}
use np_alloc.Common.Counts.{bit_counts-portable}
use np_alloc.Bitset.Word.{get, get_frist}
use np_alloc.Bitset.Word.Cursor.{at, begin, walk, walk-get}

-- Positions 1 and 63.
abbrev word : ℕ
word = 2 ^ 62 + 1

bit_counts-portable_example :
    ((bit_counts msvc).clz_of word ≡ clz word)
    × ((bit_counts msvc).ctz_of word ≡ ctz word)
    × ((bit_counts msvc).popcnt_of word ≡ popcnt word)
    × ((bit_counts msvc).clz32_of 6 ≡ clz32 6)
    × ((bit_counts msvc).ctz32_of 6 ≡ ctz32 6)
    × ((bit_counts msvc).popcnt32_of 6 ≡ popcnt32 6)
bit_counts-portable_example = bit_counts-portable msvc word 6 (omega arith) (omega arith)

walk-get_example :
    (l r : List ℕ) × (walk 65 (at word (get_frist word)) ≡ some l)
    × ((q : ℕ) → has q l ≡ (ltb q 64 && get word q))
    × (walk 65 (begin word) ≡ some r)
    × ((q : ℕ) → has q r ≡ (ltb q 64 && ((q == 0) || get word q)))
walk-get_example = walk-get word (omega arith)
