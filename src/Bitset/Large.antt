-- ===== src/Bitset/Large.antt =====
-- `bitset<TSize>` for 64 < TSize ≤ 4096: an index word with a position for each of the
-- `kSubIndexCount` words, and those words. `none` is a failed assertion or a word out of range.
pub mod Summary
pub mod Laws
pub mod First
pub mod Cursor
use np_alloc.Prelude.{
  ℕ, zero, suc, ◌+◌, ◌-◌, ◌*◌, ◌/◌, ◌%◌, ◌==◌, leb, Bool, true, false, Option, none, some, List, [],
  ◌∷◌, map, get_elem?, set as set_elem, replicate, if◌then◌else◌,
}
use np_alloc.Bitset.Word

pub record Bitset : Type 0 where
  pub index : ℕ
  pub subs : List ℕ

abbrev pub sub_count : ℕ → ℕ
sub_count size = (size + 63) / 64

-- A new bitset is empty.
unfoldable pub empty : ℕ → Bitset
empty size = record { index = 0; subs = replicate (sub_count size) 0 }

-- `get_subpos`: the word and the position in it.
unfoldable pub get_subpos : ℕ → ℕ → Option (ℕ × ℕ)
get_subpos size pos = if leb pos size then some (pos / 64, pos % 64) else none

infixl 5 ◌>>=◌
abbrev pub ◌>>=◌ {ℓ κ} : {A : Type ℓ} {B : Type κ} → Option A → (A → Option B) → Option B
none >>= f = none
some a >>= f = f a

unfoldable pub get_frist : ℕ → Bitset → Option ℕ
get_frist size b =
    let idx = Word.get_frist b.index in
    if leb (sub_count size) idx
    then some size
    else (get_elem? b.subs idx >>= λ sub. some (idx * 64 + Word.get_frist sub))

unfoldable pub get : ℕ → Bitset → ℕ → Option Bool
get size b pos = do
  (idx, p) ← get_subpos size pos
  sub ← get_elem? b.subs idx
  some (Word.get sub p)

unfoldable pub set : ℕ → Bitset → ℕ → Option Bitset
set size b pos = do
  (idx, p) ← get_subpos size pos
  sub ← get_elem? b.subs idx
  some (record { index = Word.set b.index idx; subs = set_elem b.subs idx (Word.set sub p) })

unfoldable pub clear : ℕ → Bitset → ℕ → Option (Bitset × Bool)
clear size b pos = do
  (idx, p) ← get_subpos size pos
  sub ← get_elem? b.subs idx
  let (sub', gone) = Word.clear sub p
  let subs' = set_elem b.subs idx sub'
  let (index', all_gone) = Word.clear b.index idx
  if gone
      then some (record { index = index'; subs = subs' }, all_gone)
      else some (record { index = b.index; subs = subs' }, false)

unfoldable pub count_subs : List ℕ → ℕ
count_subs [] = 0
count_subs (sub ∷ subs) = Word.count sub + count_subs subs

unfoldable pub count : Bitset → ℕ
unfolding count_subs
count b = count_subs b.subs

unfoldable pub set_all : Bitset → Bitset
set_all b = record { index = Word.set_all b.index; subs = map Word.set_all b.subs }

unfoldable pub clear_all : Bitset → Bitset
clear_all b = record { index = Word.clear_all b.index; subs = map Word.clear_all b.subs }

-- The loop of `iterator::next`, with `left` positions before the end.
unfoldable pub scan : (left size : ℕ) → Bitset → ℕ → Option ℕ
scan zero size b pos = some pos
scan (suc left) size b pos = elim (get size b pos) [
  | none ↦ none
  | some true ↦ some pos
  | some false ↦ scan left size b (pos + 1)
]

-- `iterator::next`, from a position below `size`.
unfoldable pub next : ℕ → Bitset → ℕ → Option ℕ
unfolding scan
next size b pos = let p = pos + 1 in if p == size then some p else scan (size - p) size b p
