-- ===== src/Bitset/Word/First.antt =====
-- Searching a word for the positions that are set, and counting them.
use np_alloc.Prelude.{
  ℕ, zero, suc, ◌+◌, ◌-◌, ◌*◌, ◌/◌, ◌%◌, ◌^◌, ◌≤◌, ◌<◌, ◌≡◌, ◌≢◌, ◌↔◌, inl, inr, refl, sym, ◌∙◌,
  subst, leb, Bool, true, false, ◌==◌, arith, Bool-cases, ==_iff, if◌then◌else◌,
}
use np_alloc.Prelude.Bits.{bit-le-one, bit-zero, bit-mod, bit_of_lt, shift_round}
use native.Mathlib.Nat.{one-le-pow, mod-lt, pow-le-pow_right}
use np_alloc.Common.{clz, ones, popcnt}
use np_alloc.Common.Counts.{clz-lt, clz-top, clz-above}
use np_alloc.Bitset.Word.{get, get_frist, next, clear, count}
use np_alloc.Bitset.Word.Laws.{get-bit, get_ext, clear-lt}

-- `r` is the first position from `from` on that `f` holds of, or `stop` if there is none before.
pub record IsNext (f : ℕ → Bool) (from stop r : ℕ) : Type 0 where
  pub after : from ≤ r
  pub before : r ≤ stop
  pub skipped : (p : ℕ) → from ≤ p → p < r → f p ≡ false
  pub found : r < stop → f r ≡ true

-- `get_frist` finds the first position that is set, and 64 in an empty word.
pub get_frist_lem : (b : ℕ) → b < 2 ^ 64 → IsNext (get b) 0 64 (get_frist b)
unfolding get_frist
get_frist_lem b small = elim (Bool-cases (b == 0)) [
  | inl e ↦ rw e (record {
    after = omega arith;
    before = omega arith;
    skipped = λ p _ lt. ground (arith, get-bit b p small, (==_iff b 0).0 e, bit-zero (63 - p));
    found = λ lt. absurd (omega arith);
  })
  | inr e ↦
      let ne : b ≢ 0 = ground arith in
      let short = clz-lt b small ne in
      rw e (record {
        after = omega arith;
        before = omega arith;
        skipped = λ p _ lt.
            ground (arith, get-bit b p small, clz-above b (63 - p) (omega arith) (omega arith));
        found =
            λ lt. ground (arith, get-bit b (clz b) small, clz-top b (63 - clz b) ne (omega arith));
      })
]

abbrev shifted : ℕ → ℕ → ℕ
shifted b p = b * 2 ^ p % 2 ^ 64 / 2 ^ p

shifted-mod : (b p : ℕ) → p ≤ 64 → shifted b p ≡ b % 2 ^ (64 - p)
shifted-mod b p le =
    let e : 64 - p + p ≡ 64 = omega arith in
    subst (λ w. b * 2 ^ p % 2 ^ w / 2 ^ p ≡ b % 2 ^ (64 - p)) e (shift_round p (64 - p) b)

-- The word that `iterator::next` searches has the positions from `p` on.
get-shifted :
    (b p q : ℕ)
    → b < 2 ^ 64
    → p ≤ 64
    → q < 64
    → get (shifted b p) q ≡ (if leb p q then get b q else false)
get-shifted b p q small le lt =
    let w = 64 - p in
    let narrow : b % 2 ^ w < 2 ^ w = mod-lt b (one-le-pow w 2 (omega arith)) in
    let wide : 2 ^ w ≤ 2 ^ 64 = pow-le-pow_right (omega arith) {i = w} {j = 64} (omega arith) in
    rw (shifted-mod b p le) (
      ground (
        arith,
        get-bit (b % 2 ^ w) q,
        get-bit b q small,
        bit-mod w b (63 - q),
        bit_of_lt w (b % 2 ^ w) (63 - q),
      ))

shifted-lt : (b p : ℕ) → b < 2 ^ 64 → p ≤ 64 → shifted b p < 2 ^ 64
shifted-lt b p small le =
    let w = 64 - p in
    let narrow : b % 2 ^ w < 2 ^ w = mod-lt b (one-le-pow w 2 (omega arith)) in
    let wide : 2 ^ w ≤ 2 ^ 64 = pow-le-pow_right (omega arith) {i = w} {j = 64} (omega arith) in
    rw (shifted-mod b p le) (omega arith)

-- `iterator::next` goes to the first position after `pos` that is set, and to 64 if there is none.
pub next_lem : (b pos : ℕ) → b < 2 ^ 64 → pos < 64 → IsNext (get b) (pos + 1) 64 (next b pos)
unfolding next
next_lem b pos small lt = elim (Bool-cases ((pos + 1) % 256 == 64)) [
  | inl e ↦
      let at : (pos + 1) % 256 ≡ pos + 1 = omega arith in
      let last : pos + 1 ≡ 64 = ground arith in
      rw at (
        rw last (record {
          after = omega arith;
          before = omega arith;
          skipped = λ p lo hi. absurd (omega arith);
          found = λ h. absurd (omega arith);
        }))
  | inr e ↦ rw e (search_from (ground arith))
]
  where
    at : (pos + 1) % 256 ≡ pos + 1
    at = omega arith

    search_from :
        pos + 1 < 64 → IsNext (get b) (pos + 1) 64 (get_frist (shifted b ((pos + 1) % 256)) % 256)
    search_from room =
        let p = pos + 1 in
        let first = get_frist_lem (shifted b p) (shifted-lt b p small (omega arith)) in
        let r = get_frist (shifted b p) in
        let byte : r % 256 ≡ r = omega (arith, first.before) in
        let off : (q : ℕ) → q < 64 → q < p → get (shifted b p) q ≡ false =
          λ q lo hi. ground (arith, get-shifted b p q small) in
        rw at (
          rw byte (record {
            after = ground (arith, first.before, first.found, get-shifted b p r small);
            before = first.before;
            skipped =
                λ q lo hi. ground (arith, first.before, first.skipped q, get-shifted b p q small);
            found = λ h. ground (arith, first.found h, get-shifted b p r small);
          }))

-- What `clear` returns: whether it has left the word empty.
pub clear_empty :
    (b p : ℕ)
    → b < 2 ^ 64
    → ((clear b p).1 ≡ true) ↔ ((q : ℕ) → q < 64 → get (clear b p).0 q ≡ false)
clear_empty b p small = (forth, back)
  where
    none_set : (q : ℕ) → get 0 q ≡ false
    none_set q = ground (arith, get-bit 0 q, bit-zero (63 - q))

    result : (clear b p).1 ≡ ((clear b p).0 == 0)
    result = unfold clear in refl

    forth : (clear b p).1 ≡ true → (q : ℕ) → q < 64 → get (clear b p).0 q ≡ false
    forth e q lt = let z : (clear b p).0 ≡ 0 = ground (arith, result) in rw z (none_set q)

    back : ((q : ℕ) → q < 64 → get (clear b p).0 q ≡ false) → (clear b p).1 ≡ true
    back h =
        let z : (clear b p).0 ≡ 0 =
          get_ext (clear b p).0 0 (clear-lt b p small) (omega arith)
            (λ q lt. h q lt ∙ sym (none_set q)) in
        rw result (rw z refl)

-- The number of positions from `64 - n` on that are set.
unfoldable pub set_from : (n b : ℕ) → ℕ
set_from zero b = 0
set_from (suc n) b = (if get b (63 - n) then 1 else 0) + set_from n b

ones-set_from : (n b : ℕ) → b < 2 ^ 64 → n ≤ 64 → ones n b ≡ set_from n b
unfolding ones set_from
ones-set_from zero b small le = refl
ones-set_from (suc n) b small le =
    let e : 63 - (63 - n) ≡ n = omega arith in
    ground (arith, e, ones-set_from n b small, get-bit b (63 - n) small, bit-le-one b n)

-- `count` is the number of positions that are set.
pub count-set_from : (b : ℕ) → b < 2 ^ 64 → count b ≡ set_from 64 b
unfolding count popcnt
count-set_from b small = ones-set_from 64 b small (omega arith)
