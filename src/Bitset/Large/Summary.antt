-- ===== src/Bitset/Large/Summary.antt =====
-- What a two-level bitset holds, and when its index word is right.
use np_alloc.Prelude.{
  ℕ, zero, suc, ◌-◌, ◌/◌, ◌%◌, ◌^◌, ◌<◌, ◌≤◌, ◌==◌, ◌≡◌, not, Bool, false, some, List, [], ◌∷◌,
  get_elem?, get_or, set as set_elem, length, if◌then◌else◌, arith, refl, get_or-set_self,
  get_or-set_ne, Bool-cases, inl, inr, ==_iff,
}
use np_alloc.Prelude.Bits.{bit-zero}
use np_alloc.Bitset.Word
use np_alloc.Bitset.Word.Laws.{get-bit}
use np_alloc.Bitset.Large.{Bitset, sub_count, get_subpos, get}

-- Sub-word `i`, and position `p` of the whole set.
abbrev pub word : Bitset → ℕ → ℕ
word b i = get_or b.subs i 0

abbrev pub holds : Bitset → ℕ → Bool
holds b p = Word.get (word b (p / 64)) (p % 64)

-- The index word has the positions of the sub-words that are not empty, and nothing is set past
-- `size`.
pub record IsSummary (size : ℕ) (b : Bitset) : Type 0 where
  pub small : size ≤ 4096
  pub subs : length b.subs ≡ sub_count size
  pub index : b.index < 2 ^ 64
  pub words : (i : ℕ) → word b i < 2 ^ 64
  pub summary : (i : ℕ) → i < 64 → Word.get b.index i ≡ not (word b i == 0)
  pub inside : (p : ℕ) → size ≤ p → holds b p ≡ false

pub get_elem-get_or : (xs : List ℕ) (i : ℕ) → i < length xs → get_elem? xs i ≡ some (get_or xs i 0)
get_elem-get_or [] i h = absurd (omega arith)
get_elem-get_or (x ∷ xs) zero h = refl
get_elem-get_or (x ∷ xs) (suc i) h = get_elem-get_or xs i (omega arith)

pub get_or_past : (xs : List ℕ) (i : ℕ) → length xs ≤ i → get_or xs i 0 ≡ 0
get_or_past [] i h = refl
get_or_past (x ∷ xs) zero h = absurd (omega arith)
get_or_past (x ∷ xs) (suc i) h = get_or_past xs i (omega arith)

pub get_or-set :
    (xs : List ℕ) (i j v : ℕ)
    → i < length xs
    → get_or (set_elem xs i v) j 0 ≡ (if i == j then v else get_or xs j 0)
get_or-set xs i j v h = elim (Bool-cases (i == j)) [
  | inl e ↦ rw e (rw (← (==_iff i j).0 e) (get_or-set_self xs i v 0 h))
  | inr e ↦ rw e (get_or-set_ne xs i j v 0 (λ z. ground arith))
]

pub get_empty : (p : ℕ) → Word.get 0 p ≡ false
get_empty p = ground (arith, get-bit 0 p (omega arith), bit-zero (63 - p))

-- Where a position lies.
pub subpos : (size pos : ℕ) → pos < size → get_subpos size pos ≡ some (pos / 64, pos % 64)
unfolding get_subpos
subpos size pos lt = ground arith

pub sub_in : (size pos : ℕ) → pos < size → pos / 64 < sub_count size
sub_in size pos lt = omega arith

-- `get` tells whether a position is held.
pub get_lem :
    (size pos : ℕ) (b : Bitset)
    → IsSummary size b
    → pos < size
    → get size b pos ≡ some (holds b pos)
unfolding get
get_lem size pos b v lt =
    rw (subpos size pos lt, get_elem-get_or b.subs (pos / 64) (omega (arith, v.subs))) refl
