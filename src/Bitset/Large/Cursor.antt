-- ===== src/Bitset/Large/Cursor.antt =====
-- `bitset<TSize>::iterator`. `none` is a failed assertion or a word out of range.
use np_alloc.Prelude.{
  ℕ, zero, suc, ◌+◌, ◌≤◌, ◌<◌, ◌≡◌, ◌==◌, refl, Bool, true, false, ◌&&◌, List, [], ◌∷◌, Option,
  none, some, has, arith, Bool-cases, inl, inr, ltb, leb,
}
use np_alloc.Bitset.Large.{Bitset, ◌>>=◌}
use np_alloc.Bitset.Large
use np_alloc.Bitset.Large.Summary.{holds, IsSummary}
use np_alloc.Bitset.Large.First.{get_frist-IsNext, next-IsNext}

-- The bitset that `self_` refers to, and `pos_`.
pub record Cursor : Type 0 where
  pub self : Bitset
  pub pos : ℕ

unfoldable pub at : Bitset → ℕ → Cursor
at b pos = record { self = b; pos = pos }

unfoldable pub begin : Bitset → Cursor
begin b = record { self = b; pos = 0 }

-- `operator=`, which assigns the bitset that `self_` refers to.
unfoldable pub assign : Cursor → Cursor → Cursor
assign c r = record { self = r.self; pos = r.pos }

module _ (size : ℕ) where
  unfoldable pub size_of : Bitset → ℕ
  size_of b = size

  unfoldable pub end : Bitset → Cursor
  end b = record { self = b; pos = size }

  unfoldable pub is_end : Cursor → Bool
  is_end c = c.pos == size

  -- `set` and `clear` write the bitset through the reference.
  unfoldable pub set : Cursor → Option Cursor
  set c = Large.set size c.self c.pos >>= λ self. some (record c { self = self })

  unfoldable pub clear : Cursor → Option (Cursor × Bool)
  clear c = Large.clear size c.self c.pos >>= λ (self, gone). some (record c { self = self }, gone)

  unfoldable pub get : Cursor → Option Bool
  get c = Large.get size c.self c.pos

  unfoldable pub get_pos : Cursor → ℕ
  get_pos c = c.pos

  unfoldable pub next : Cursor → Option Cursor
  next c = Large.next size c.self c.pos >>= λ pos. some (record c { pos = pos })

  abbrev and_rest : Bool → ℕ → Option (List ℕ) → Option (List ℕ)
  and_rest true pos rest = some []
  and_rest false pos none = none
  and_rest false pos (some l) = some (pos ∷ l)

  -- The positions that `for (; !it.end(); it.next())` meets, from a position on; `none` also where
  -- the loop has not ended after `fuel` tests.
  unfoldable pub walk : (fuel : ℕ) → Cursor → Option (List ℕ)
  unfolding next is_end get_pos
  walk zero c = none
  walk (suc fuel) c = and_rest (is_end c) (get_pos c) (next c >>= λ c'. walk fuel c')

module _ {size : ℕ} {b : Bitset} (v : IsSummary size b) where
  walk_from :
      (fuel pos : ℕ)
      → pos ≤ size
      → size < fuel + pos
      → (pos < size → holds b pos ≡ true)
      → (l : List ℕ) × (walk size fuel (at b pos) ≡ some l)
        × ((q : ℕ) → has q l ≡ (leb pos q && (ltb q size && holds b q)))
  unfolding walk is_end next get_pos at
  walk_from zero pos le enough on = absurd (omega arith)
  walk_from (suc fuel) pos le enough on = elim (Bool-cases (pos == size)) [
    | inl e ↦ ([], rw (e, walk) refl, λ q. ground (arith, e))
    | inr e ↦
        let lt : pos < size = ground (arith, e) in
        let (r, to, n) = next-IsNext v pos lt in
        let (l, run, met) = walk_from fuel r n.before (omega (arith, n.after)) n.found in
        (
          pos ∷ l,
          rw (e, walk, to, run) refl,
          λ q. ground (arith, met q, n.after, n.skipped q, on lt),
        )
  ]

  -- A loop over a well-formed bitset from its first position on ends after at
  -- most one round for each position, and meets exactly the positions that are held.
  pub walk-holds :
      (first : ℕ) × (l : List ℕ) × (Large.get_frist size b ≡ some first)
      × (walk size (suc size) (at b first) ≡ some l)
      × ((q : ℕ) → has q l ≡ holds b q)
  walk-holds =
      let (r, first, f) = get_frist-IsNext v in
      let (l, run, met) = walk_from (suc size) r f.before (omega arith) f.found in
      (r, l, first, run, λ q. ground (arith, met q, f.skipped q, v.inside q))
