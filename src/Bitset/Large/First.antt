-- ===== src/Bitset/Large/First.antt =====
-- Searching a two-level bitset, and the bitset with nothing set.
use np_alloc.Prelude.{
  ℕ, zero, suc, ◌+◌, ◌-◌, ◌*◌, ◌/◌, ◌%◌, ◌<◌, ◌≤◌, ◌==◌, ◌≡◌, leb, ltb, true, false, some, get_or,
  arith, refl, ap, ◌∙◌, Bool-cases, inl, inr, ==_iff, length-replicate, replicate,
}
use np_alloc.Bitset.Word
use np_alloc.Bitset.Word.First.{IsNext, get_frist_lem}
use np_alloc.Bitset.Large.{Bitset, sub_count, empty, get_frist, scan, next}
use np_alloc.Bitset.Large.Summary.{word, holds, IsSummary, get_elem-get_or, get_empty, get_lem}
use np_alloc.Bitset.Large.Laws.{eq_zero}

replicate_zero : (n i : ℕ) → get_or {A = ℕ} (replicate n 0) i 0 ≡ 0
replicate_zero zero i = refl
replicate_zero (suc n) zero = refl
replicate_zero (suc n) (suc i) = replicate_zero n i

-- A new bitset is well formed and holds nothing.
pub empty-IsSummary :
    (size : ℕ)
    → size ≤ 4096
    → IsSummary size (empty size) × ((q : ℕ) → holds (empty size) q ≡ false)
unfolding empty
empty-IsSummary size le = (
  record {
    small = le;
    subs = length-replicate (sub_count size) 0;
    index = omega arith;
    words = λ i. rw (replicate_zero (sub_count size) i) (omega arith);
    summary = λ i h. rw (replicate_zero (sub_count size) i) (get_empty i);
    inside = λ p h. none p;
  },
  none,
)
  where
    none :
        (q : ℕ)
        → Word.get (get_or {A = ℕ} (replicate (sub_count size) 0) (q / 64) 0) (q % 64) ≡ false
    none q = rw (replicate_zero (sub_count size) (q / 64)) (get_empty (q % 64))

module _ {size : ℕ} {b : Bitset} (v : IsSummary size b) where
  -- A sub-word whose position in the index is off is empty.
  empty_sub : (p : ℕ) → p / 64 < 64 → Word.get b.index (p / 64) ≡ false → holds b p ≡ false
  empty_sub p lt off =
      let z : word b (p / 64) ≡ 0 = ground (arith, v.summary (p / 64)) in rw z (get_empty (p % 64))

  -- `get_frist` finds the first position that is held, and the size where none is.
  pub get_frist-IsNext : (r : ℕ) × (get_frist size b ≡ some r) × IsNext (holds b) 0 size r
  unfolding get_frist
  get_frist-IsNext = elim (Bool-cases (leb (sub_count size) (Word.get_frist b.index))) [
    | inl past ↦ (
      size,
      rw past refl,
      record {
        after = omega arith;
        before = omega arith;
        skipped = λ p lo hi.
            empty_sub p (omega (arith, v.small))
              (outer.skipped (p / 64) (omega arith) (ground (arith, past)));
        found = λ h. absurd (omega arith);
      },
    )
    | inr there ↦
        let idx = Word.get_frist b.index in
        let low : idx < sub_count size = ground (arith, there) in
        let inner = get_frist_lem (word b idx) (v.words idx) in
        let r = idx * 64 + Word.get_frist (word b idx) in
        let lt = inner_lt idx (omega (arith, v.small)) (outer.found (omega (arith, v.small))) in
        let hit = holds_r idx lt in
        (
          r,
          rw (there, get_elem-get_or b.subs idx (omega (arith, v.subs))) refl,
          record {
            after = omega arith;
            before = elim (Bool-cases (leb r size)) [
              | inl le ↦ ground (arith, le)
              | inr gt ↦ absurd (ground (arith, hit, v.inside r, gt))
            ];
            skipped = λ p lo hi. elim (Bool-cases (p / 64 == idx)) [
              | inl e ↦
                  let same : p / 64 ≡ idx = (==_iff (p / 64) idx).0 e in
                  ap (λ i. Word.get (word b i) (p % 64)) same
                  ∙ inner.skipped (p % 64) (omega arith) (omega arith)
              | inr n ↦
                  let before : p / 64 < idx = ground arith in
                  empty_sub p (omega (arith, v.small)) (outer.skipped (p / 64) (omega arith) before)
            ];
            found = λ h. hit;
          },
        )
  ]
    where
      outer : IsNext (Word.get b.index) 0 64 (Word.get_frist b.index)
      outer = get_frist_lem b.index v.index

      inner_lt : (i : ℕ) → i < 64 → Word.get b.index i ≡ true → Word.get_frist (word b i) < 64
      inner_lt i h on =
          let inner = get_frist_lem (word b i) (v.words i) in
          elim (Bool-cases (ltb (Word.get_frist (word b i)) 64)) [
            | inl lt ↦ ground (arith, lt)
            | inr ge ↦
                let z : word b i ≡ 0 =
                  eq_zero (word b i) (v.words i)
                    (λ p lt. inner.skipped p (omega arith) (ground (arith, ge))) in
                absurd (ground (arith, v.summary i h, z, on))
          ]

      holds_r :
          (i : ℕ)
          → Word.get_frist (word b i) < 64
          → holds b (i * 64 + Word.get_frist (word b i)) ≡ true
      holds_r i lt =
          let inner = get_frist_lem (word b i) (v.words i) in
          let quot : (i * 64 + Word.get_frist (word b i)) / 64 ≡ i = omega arith in
          let rest : (i * 64 + Word.get_frist (word b i)) % 64 ≡ Word.get_frist (word b i) =
            omega arith in
          rw (quot, rest) (inner.found lt)

  scan-IsNext :
      (left p : ℕ)
      → p + left ≡ size
      → (r : ℕ) × (scan left size b p ≡ some r) × IsNext (holds b) p size r
  unfolding scan
  scan-IsNext zero p e = (
    p,
    refl,
    record {
      after = omega arith;
      before = omega arith;
      skipped = λ q lo hi. absurd (omega arith);
      found = λ h. absurd (omega arith);
    },
  )
  scan-IsNext (suc left) p e = elim (Bool-cases (holds b p)) [
    | inl on ↦ (
      p,
      rw (get_lem size p b v (omega arith) ∙ ap some on, scan) refl,
      record {
        after = omega arith;
        before = omega arith;
        skipped = λ q lo hi. absurd (omega arith);
        found = λ h. on;
      },
    )
    | inr off ↦
        let (r, at, n) = scan-IsNext left (p + 1) (omega arith) in
        (
          r,
          rw (get_lem size p b v (omega arith) ∙ ap some off, scan) at,
          record {
            after = omega (arith, n.after);
            before = n.before;
            skipped = λ q lo hi. elim (Bool-cases (p == q)) [
              | inl same ↦ rw (← (==_iff p q).0 same) off
              | inr other ↦ n.skipped q (ground arith) hi
            ];
            found = n.found;
          },
        )
  ]

  -- `iterator::next` goes to the first position after `pos` that is held, and to the size where
  -- none is; it never fails.
  pub next-IsNext :
      (pos : ℕ)
      → pos < size
      → (r : ℕ) × (next size b pos ≡ some r) × IsNext (holds b) (pos + 1) size r
  unfolding next
  next-IsNext pos lt = elim (Bool-cases (pos + 1 == size)) [
    | inl e ↦ (
      pos + 1,
      rw e refl,
      record {
        after = omega arith;
        before = omega arith;
        skipped = λ q lo hi. absurd (omega arith);
        found = λ h. absurd (ground arith);
      },
    )
    | inr n ↦
        let (r, at, next) = scan-IsNext (size - (pos + 1)) (pos + 1) (omega arith) in
        (r, rw n at, next)
  ]
