-- ===== src/Bitset/Large/Laws.antt =====
-- `set` and `clear` of a two-level bitset.
use np_alloc.Prelude.{
  ℕ, ◌+◌, ◌*◌, ◌/◌, ◌%◌, ◌^◌, ◌<◌, ◌==◌, ◌≡◌, ◌↔◌, ltb, not, Bool, true, false, some,
  set as set_elem, length, if◌then◌else◌, arith, refl, sym, ap, ◌∙◌, length-set, Bool-cases, inl,
  inr, ==_iff,
}
use np_alloc.Bitset.Word
use np_alloc.Bitset.Word.Laws.{get-set, get-clear, set-lt, clear-lt, get_ext}
use np_alloc.Bitset.Word.First.{clear_empty}
use np_alloc.Bitset.Large.{Bitset, set, clear}
use np_alloc.Bitset.Large.Summary.{
  word, holds, IsSummary, get_elem-get_or, get_or_past, get_or-set, get_empty, subpos,
}

-- A word with a position set is not 0.
pub ne_zero_of_get : (w p : ℕ) → Word.get w p ≡ true → (w == 0) ≡ false
ne_zero_of_get w p h = elim (Bool-cases (w == 0)) [
  | inl z ↦ let e : w ≡ 0 = (==_iff w 0).0 z in absurd (ground (arith, get_empty p, e))
  | inr n ↦ n
]

clear_flag : (w p : ℕ) → (Word.clear w p).1 ≡ ((Word.clear w p).0 == 0)
unfolding Word.clear
clear_flag w p = refl

-- A word without positions is 0.
pub eq_zero : (w : ℕ) → w < 2 ^ 64 → ((p : ℕ) → p < 64 → Word.get w p ≡ false) → w ≡ 0
eq_zero w small off = get_ext w 0 small (omega arith) (λ p h. off p h ∙ sym (get_empty p))

holds_at : (b : Bitset) (i p : ℕ) → p < 64 → holds b (i * 64 + p) ≡ Word.get (word b i) p
holds_at b i p lt =
    let quot : (i * 64 + p) / 64 ≡ i = omega arith in
    let rest : (i * 64 + p) % 64 ≡ p = omega arith in rw (quot, rest) refl

-- The index word is empty exactly when nothing is held.
holds-index :
    {size : ℕ} (b : Bitset)
    → IsSummary size b
    → ((i : ℕ) → i < 64 → Word.get b.index i ≡ false) ↔ ((q : ℕ) → holds b q ≡ false)
holds-index {size} b v = (
  λ none q. elim (Bool-cases (ltb (q / 64) 64)) [
    | inl low ↦
        let z : word b (q / 64) ≡ 0 = ground (arith, none (q / 64), v.summary (q / 64)) in
        rw z (get_empty (q % 64))
    | inr high ↦
        let z : word b (q / 64) ≡ 0 =
          get_or_past b.subs (q / 64) (ground (arith, v.subs, v.small)) in
        rw z (get_empty (q % 64))
  ],
  λ none i h.
      let z : word b i ≡ 0 =
        eq_zero (word b i) (v.words i) (λ p lt. sym (holds_at b i p lt) ∙ none (i * 64 + p)) in
      v.summary i h ∙ rw z refl,
)

module _ {size : ℕ} {b : Bitset} (v : IsSummary size b) (pos : ℕ) (lt : pos < size) where
  abbrev idx : ℕ
  idx = pos / 64

  within : idx < length b.subs
  within = omega (arith, v.subs)

  -- The bitset with sub-word `idx` replaced by `w`.
  abbrev put : ℕ → ℕ → Bitset
  put index w = record { index = index; subs = set_elem b.subs idx w }

  word-put : (index w j : ℕ) → word (put index w) j ≡ (if idx == j then w else word b j)
  word-put index w j = get_or-set b.subs idx j w within

  -- A replaced sub-word that differs from the old one at position `pos` only.
  holds-put :
      (index w : ℕ) (x : Bool)
      → ((p : ℕ) → p < 64 → Word.get w p ≡ (if pos % 64 == p then x else Word.get (word b idx) p))
      → (q : ℕ) → holds (put index w) q ≡ (if pos == q then x else holds b q)
  holds-put index w x new q = elim (Bool-cases (idx == q / 64)) [
    | inl e ↦
        let same : idx ≡ q / 64 = (==_iff idx (q / 64)).0 e in
        let there : word (put index w) (q / 64) ≡ w = ground (arith, word-put index w (q / 64)) in
        rw there (elim (Bool-cases (pos % 64 == q % 64)) [
          | inl f ↦
              let hit : (pos == q) ≡ true = ground arith in
              rw hit (new (q % 64) (omega arith) ∙ rw f refl)
          | inr f ↦
              let miss : (pos == q) ≡ false = ground arith in
              rw miss (new (q % 64) (omega arith) ∙ rw (f, same) refl)
        ])
    | inr e ↦
        let miss : (pos == q) ≡ false = ground arith in
        rw miss (ap (λ (u : ℕ). Word.get u (q % 64)) (word-put index w (q / 64) ∙ rw e refl))
  ]

  put-IsSummary :
      (index w : ℕ) (x : Bool)
      → ((p : ℕ) → p < 64 → Word.get w p ≡ (if pos % 64 == p then x else Word.get (word b idx) p))
      → index < 2 ^ 64
      → w < 2 ^ 64
      → ((i : ℕ)
          → i < 64
          → Word.get index i ≡ (if idx == i then not (w == 0) else Word.get b.index i))
      → IsSummary size (put index w)
  put-IsSummary index w x new small small' summary = record {
    small = v.small;
    subs = length-set b.subs idx w ∙ v.subs;
    index = small;
    words = λ i. ground (arith, word-put index w i, v.words i);
    summary = λ i h. ground (arith, word-put index w i, summary i h, v.summary i h);
    inside = λ p past. ground (arith, holds-put index w x new p, v.inside p past);
  }

  -- `set` of a position below the size succeeds, turns this position on and no other, and keeps the
  -- index word right.
  pub set-IsSummary :
      (b' : Bitset) × (set size b pos ≡ some b')
      × IsSummary size b'
      × ((q : ℕ) → holds b' q ≡ (if pos == q then true else holds b q))
  unfolding set
  set-IsSummary =
      let w = Word.set (word b idx) (pos % 64) in
      let new : (p : ℕ)
          → p < 64
          → Word.get w p ≡ (if pos % 64 == p then true else Word.get (word b idx) p) =
        λ p h. get-set (word b idx) (pos % 64) p (v.words idx) (omega arith) h in
      let full : (w == 0) ≡ false = ne_zero_of_get w (pos % 64) (ground (arith, new (pos % 64))) in
      let index : ℕ = Word.set b.index idx in
      let low : idx < 64 = omega (arith, v.small) in
      (
        put index w,
        rw (subpos size pos lt, get_elem-get_or b.subs idx within) refl,
        put-IsSummary index w true new (set-lt b.index idx v.index)
            (set-lt (word b idx) (pos % 64) (v.words idx))
            (λ i h. get-set b.index idx i v.index low h ∙ rw full refl),
        holds-put index w true new,
      )

  -- `clear` of a position below the size succeeds, turns this position off and no other, keeps the
  -- index word right, and tells whether nothing is held any more.
  pub clear-IsSummary :
      (b' : Bitset) × (none_left : Bool) × (clear size b pos ≡ some (b', none_left))
      × IsSummary size b'
      × ((q : ℕ) → holds b' q ≡ (if pos == q then false else holds b q))
      × ((none_left ≡ true) ↔ ((q : ℕ) → holds b' q ≡ false))
  unfolding clear
  clear-IsSummary = elim (Bool-cases ((Word.clear (word b idx) (pos % 64)).1)) [
    | inl gone ↦
        let index = (Word.clear b.index idx).0 in
        let zero' : (w == 0) ≡ true = ground (arith, clear_flag (word b idx) (pos % 64), gone) in
        let sum =
          put-IsSummary index w false new (clear-lt b.index idx v.index) small
            (λ i h. get-clear b.index idx i v.index low h ∙ rw zero' refl) in
        (
          put index w,
          (Word.clear b.index idx).1,
          rw (subpos size pos lt, get_elem-get_or b.subs idx within, gone) refl,
          sum,
          holds-put index w false new,
          (
            λ e. (holds-index (put index w) sum).0 ((clear_empty b.index idx v.index).0 e),
            λ e. (clear_empty b.index idx v.index).1 ((holds-index (put index w) sum).1 e),
          ),
        )
    | inr left ↦
        let some' : (w == 0) ≡ false = ground (arith, clear_flag (word b idx) (pos % 64), left) in
        let full : (word b idx == 0) ≡ false = elim (Bool-cases (word b idx == 0)) [
          | inl e ↦
              let old : word b idx ≡ 0 = (==_iff (word b idx) 0).0 e in
              absurd (
                ground (
                  arith,
                  some',
                  eq_zero w small (λ p h. ground (arith, new p h, old, get_empty p)),
                ))
          | inr n ↦ n
        ] in
        (
          put b.index w,
          false,
          rw (subpos size pos lt, get_elem-get_or b.subs idx within, left) refl,
          put-IsSummary b.index w false new v.index small (λ i h. kept i h some' full),
          holds-put b.index w false new,
          (
            λ e. absurd (ground (arith, e)),
            λ e. absurd (ground (arith, some', eq_zero w small (λ p h. off p h e))),
          ),
        )
  ]
    where
      w : ℕ
      w = (Word.clear (word b idx) (pos % 64)).0

      small : w < 2 ^ 64
      small = clear-lt (word b idx) (pos % 64) (v.words idx)

      low : idx < 64
      low = omega (arith, v.small)

      new :
          (p : ℕ)
          → p < 64
          → Word.get w p ≡ (if pos % 64 == p then false else Word.get (word b idx) p)
      new p h = get-clear (word b idx) (pos % 64) p (v.words idx) (omega arith) h

      kept :
          (i : ℕ)
          → i < 64
          → (w == 0) ≡ false
          → (word b idx == 0) ≡ false
          → Word.get b.index i ≡ (if idx == i then not (w == 0) else Word.get b.index i)
      kept i h new_full old_full = elim (Bool-cases (idx == i)) [
        | inl e ↦
            let same : idx ≡ i = (==_iff idx i).0 e in
            rw (e, new_full)
              (ap (λ j. Word.get b.index j) (sym same) ∙ v.summary idx low ∙ rw old_full refl)
        | inr e ↦ rw e refl
      ]

      off : (p : ℕ) → p < 64 → ((q : ℕ) → holds (put b.index w) q ≡ false) → Word.get w p ≡ false
      off p h e =
          let there : word (put b.index w) idx ≡ w = ground (arith, word-put b.index w idx) in
          ap (λ (u : ℕ). Word.get u p) (sym there)
          ∙ sym (holds_at (put b.index w) idx p h)
          ∙ e (idx * 64 + p)
