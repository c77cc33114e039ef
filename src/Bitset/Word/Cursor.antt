-- ===== src/Bitset/Word/Cursor.antt =====
-- `bitset<64>::iterator`: a reference to the bitset, and a position in a byte.
use np_alloc.Prelude.{
  ℕ, zero, suc, ◌+◌, ◌%◌, ◌^◌, ◌≤◌, ◌<◌, ◌≡◌, ◌==◌, Bool, true, ◌&&◌, ◌||◌, List, [], ◌∷◌, Option,
  none, some, has, refl, false, arith, Bool-cases, inl, inr, ltb, leb,
}
use np_alloc.Bitset.Word
use np_alloc.Bitset.Word.First.{next_lem, get_frist_lem}

-- The word that `self_` refers to, and `pos_`.
pub record Cursor : Type 0 where
  pub self : ℕ
  pub pos : ℕ

unfoldable pub size : ℕ
size = 64

-- `iterator(self, pos)`
unfoldable pub at : ℕ → ℕ → Cursor
at b pos = record { self = b; pos = pos % 256 }

unfoldable pub begin : ℕ → Cursor
unfolding at
begin b = at b 0

unfoldable pub end : ℕ → Cursor
unfolding at
end b = at b 64

unfoldable pub is_end : Cursor → Bool
is_end c = c.pos == 64

-- `set` and `clear` write the bitset through the reference.
unfoldable pub set : Cursor → Cursor
set c = record c { self = Word.set c.self c.pos }

unfoldable pub clear : Cursor → Cursor × Bool
clear c = let (self, gone) = Word.clear c.self c.pos in (record c { self = self }, gone)

unfoldable pub get : Cursor → Bool
get c = Word.get c.self c.pos

unfoldable pub get_pos : Cursor → ℕ
get_pos c = c.pos

-- `operator=`, which assigns the bitset that `self_` refers to.
unfoldable pub assign : Cursor → Cursor → Cursor
assign c r = record { self = r.self; pos = r.pos }

unfoldable pub next : Cursor → Cursor
next c = record c { pos = Word.next c.self c.pos }

-- `operator==`, which compares the words and not where they are.
unfoldable pub equal : Cursor → Cursor → Bool
equal c r = (c.self == r.self) && (c.pos == r.pos)

abbrev and_rest : Bool → ℕ → Option (List ℕ) → Option (List ℕ)
and_rest true pos rest = some []
and_rest false pos none = none
and_rest false pos (some l) = some (pos ∷ l)

-- The positions that `for (; !it.end(); it.next())` meets, from a position on; `none` where the loop
-- has not ended after `fuel` tests.
unfoldable pub walk : (fuel : ℕ) → Cursor → Option (List ℕ)
unfolding next is_end get_pos
walk zero c = none
walk (suc fuel) c = and_rest (is_end c) (get_pos c) (walk fuel (next c))

module _ (b : ℕ) (small : b < 2 ^ 64) where
  walk_from :
      (fuel pos : ℕ)
      → pos ≤ 64
      → 64 < fuel + pos
      → (pos < 64 → Word.get b pos ≡ true)
      → (l : List ℕ) × (walk fuel (record { self = b; pos = pos }) ≡ some l)
        × ((q : ℕ) → has q l ≡ (leb pos q && (ltb q 64 && Word.get b q)))
  unfolding walk is_end next get_pos
  walk_from zero pos le enough on = absurd (omega arith)
  walk_from (suc fuel) pos le enough on = elim (Bool-cases (pos == 64)) [
    | inl e ↦ ([], rw (e, walk) refl, λ q. ground (arith, e))
    | inr e ↦
        let lt : pos < 64 = ground (arith, e) in
        let n = next_lem b pos small lt in
        let (l, run, met) =
          walk_from fuel (Word.next b pos) n.before (omega (arith, n.after)) n.found in
        (pos ∷ l, rw (e, walk, run) refl, λ q. ground (arith, met q, n.after, n.skipped q, on lt))
  ]

  walk-at :
      (fuel pos : ℕ) (l : List ℕ)
      → pos < 256
      → walk fuel (record { self = b; pos = pos }) ≡ some l
      → walk fuel (at b pos) ≡ some l
  unfolding at
  walk-at fuel pos l lt run = let byte : pos % 256 ≡ pos = omega arith in rw byte run

  -- The first round of a loop from `begin()`.
  walk-begin :
      (fuel : ℕ) (l : List ℕ)
      → walk fuel (record { self = b; pos = Word.next b 0 }) ≡ some l
      → walk (suc fuel) (begin b) ≡ some (0 ∷ l)
  unfolding at begin walk is_end next get_pos
  walk-begin fuel l run = rw run refl

  -- A loop over a word ends in at most 64 rounds, after at most 65 tests of `end()`. Where it starts
  -- at the first position that is set, it meets exactly the positions that are set; where it starts
  -- at `begin()`, it meets position 0 besides, set or not.
  pub walk-get :
      (l r : List ℕ) × (walk 65 (at b (Word.get_frist b)) ≡ some l)
      × ((q : ℕ) → has q l ≡ (ltb q 64 && Word.get b q))
      × (walk 65 (begin b) ≡ some r)
      × ((q : ℕ) → has q r ≡ (ltb q 64 && ((q == 0) || Word.get b q)))
  walk-get =
      let f = get_frist_lem b small in
      let n = next_lem b 0 small (omega arith) in
      let (l, run, met) = walk_from 65 (Word.get_frist b) f.before (omega arith) f.found in
      let (r, run', met') =
        walk_from 64 (Word.next b 0) n.before (omega (arith, n.after)) n.found in
      (
        l,
        0 ∷ r,
        walk-at 65 (Word.get_frist b) l (omega (arith, f.before)) run,
        λ q. ground (arith, met q, f.skipped q),
        walk-begin 64 r run',
        λ q. ground (arith, met' q, n.skipped q, n.after),
      )
