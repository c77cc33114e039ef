-- ===== src/Examples/Sets.antt =====
-- The two-level bitset of src/np_bitset.h with 100 positions.
use np_alloc.Prelude.{ℕ, ◌≡◌, ◌==◌, ◌↔◌, has, List, Bool, true, false, some, if◌then◌else◌, arith}
use np_alloc.Bitset.Large.{Bitset, empty, set, clear, get_frist}
use np_alloc.Bitset.Large.Summary.{IsSummary, holds}
use np_alloc.Bitset.Large.Laws.{set-IsSummary, clear-IsSummary}
use np_alloc.Bitset.Large.Cursor.{at, walk, walk-holds}
use np_alloc.Bitset.Large.First.{empty-IsSummary}

abbrev bitset : Bitset
bitset = empty 100

bitset-IsSummary : IsSummary 100 bitset
bitset-IsSummary = (empty-IsSummary 100 (omega arith)).0

set-IsSummary_example :
    (b' : Bitset) × (set 100 bitset 70 ≡ some b')
    × IsSummary 100 b'
    × ((q : ℕ) → holds b' q ≡ (if 70 == q then true else holds bitset q))
set-IsSummary_example = set-IsSummary bitset-IsSummary 70 (omega arith)

clear-IsSummary_example :
    (b' : Bitset) × (none_left : Bool) × (clear 100 bitset 70 ≡ some (b', none_left))
    × IsSummary 100 b'
    × ((q : ℕ) → holds b' q ≡ (if 70 == q then false else holds bitset q))
    × ((none_left ≡ true) ↔ ((q : ℕ) → holds b' q ≡ false))
clear-IsSummary_example = clear-IsSummary bitset-IsSummary 70 (omega arith)

walk-holds_example :
    (first : ℕ) × (l : List ℕ) × (get_frist 100 bitset ≡ some first)
    × (walk 100 101 (at bitset first) ≡ some l)
    × ((q : ℕ) → has q l ≡ holds bitset q)
walk-holds_example = walk-holds bitset-IsSummary
