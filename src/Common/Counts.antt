-- ===== src/Common/Counts.antt =====
-- The bit counts agree between the compilers, and say where the ones of a word are.
use np_alloc.Prelude.{
  ℕ, zero, suc, ◌+◌, ◌-◌, ◌%◌, ◌^◌, ◌≤◌, ◌<◌, ◌≡◌, ◌≢◌, ◌==◌, ◌⊎◌, inl, inr, refl, sym, ◌∙◌, none,
  some, arith, Bool-cases, ==_iff,
}
use np_alloc.Prelude.Bits.{bit, bit-le-one, bit-zero, eq_of_bit, lt_of_bits, pow-le_of_bit}
use np_alloc.Common.{
  Branch, gnu, msvc, bit_counts, popcnt, popcnt_msvc, popcnt32, popcnt32_msvc, leading_zeros,
  scan_reverse, scan_forward, trailing_zeros, clz, ctz, clz_msvc, ctz_msvc, clz32, ctz32,
  clz32_msvc, ctz32_msvc, log2,
}

-- `leading_zeros` stops at the highest one.
pub leading_zeros-top : (w x k : ℕ) → k + suc (leading_zeros w x) ≡ w → bit x k ≡ 1
unfolding leading_zeros
leading_zeros-top zero x k h = absurd (omega arith)
leading_zeros-top (suc w) x k h =
    let rest = leading_zeros-top w x k in
    elim (Bool-cases (bit x w == 1)) [
      | inl e ↦ let top : k ≡ w = ground arith in rw top ((==_iff (bit x w) 1).0 e)
      | inr e ↦ rest (ground arith)
    ]

pub leading_zeros-above : (w x k : ℕ) → k < w → w ≤ k + leading_zeros w x → bit x k ≡ 0
unfolding leading_zeros
leading_zeros-above zero x k lt h = absurd (omega arith)
leading_zeros-above (suc w) x k lt h =
    ground (arith, leading_zeros-above w x k, bit-le-one x k, bit-le-one x w)

pub leading_zeros-le : (w x : ℕ) → leading_zeros w x ≤ w
unfolding leading_zeros
leading_zeros-le zero x = omega arith
leading_zeros-le (suc w) x = ground (arith, leading_zeros-le w x)

scan_reverse-eq :
    (w x : ℕ)
    → (scan_reverse w x ≡ none) × (leading_zeros w x ≡ w)
      ⊎ (scan_reverse w x ≡ some (w - 1 - leading_zeros w x)) × (leading_zeros w x < w)
unfolding scan_reverse leading_zeros
scan_reverse-eq zero x = inl (refl, refl)
scan_reverse-eq (suc w) x = ground (arith, scan_reverse-eq w x)

scan_forward-eq :
    (left i x : ℕ)
    → (scan_forward left i x ≡ none) × (trailing_zeros left i x ≡ left)
      ⊎ (scan_forward left i x ≡ some (i + trailing_zeros left i x))
        × (trailing_zeros left i x < left)
unfolding scan_forward trailing_zeros
scan_forward-eq zero i x = inl (refl, refl)
scan_forward-eq (suc left) i x = ground (arith, scan_forward-eq left (i + 1) x)

bits-zero : (w x : ℕ) → leading_zeros w x ≡ w → (k : ℕ) → k < w → bit x k ≡ 0
bits-zero w x e k lt = leading_zeros-above w x k lt (omega arith)

-- A word is zero exactly when it has 64 leading zeros.
pub leading_zeros-full : (x : ℕ) → x < 2 ^ 64 → leading_zeros 64 x ≡ 64 → x ≡ 0
leading_zeros-full x small e =
    eq_of_bit 64 x 0 small (omega arith) (λ k lt. bits-zero 64 x e k lt ∙ sym (bit-zero k))

pub leading_zeros-zero : (w : ℕ) → leading_zeros w 0 ≡ w
unfolding leading_zeros
leading_zeros-zero zero = refl
leading_zeros-zero (suc w) = ground (arith, bit-zero w, leading_zeros-zero w)

trailing_zeros-zero : (w i : ℕ) → trailing_zeros w i 0 ≡ w
unfolding trailing_zeros
trailing_zeros-zero zero i = refl
trailing_zeros-zero (suc w) i = ground (arith, bit-zero i, trailing_zeros-zero w (i + 1))

-- The two compilers' versions of `clz` and of `ctz` agree on every word, 0 included.
pub clz-ctz_portable : (x : ℕ) → x < 2 ^ 64 → (clz_msvc x ≡ clz x) × (ctz_msvc x ≡ ctz x)
unfolding clz ctz clz_msvc ctz_msvc
clz-ctz_portable x small = ground (
  arith,
  scan_reverse-eq 64 x,
  scan_forward-eq 64 0 x,
  leading_zeros-zero 64,
  trailing_zeros-zero 64 0,
)

-- The versions for 32 bits agree too.
pub clz32-ctz32_portable :
    (x : ℕ) → x < 2 ^ 32 → (clz32_msvc x ≡ clz32 x) × (ctz32_msvc x ≡ ctz32 x)
unfolding clz32 ctz32 clz32_msvc ctz32_msvc
clz32-ctz32_portable x small = ground (
  arith,
  scan_reverse-eq 32 x,
  scan_forward-eq 32 0 x,
  leading_zeros-zero 32,
  trailing_zeros-zero 32 0,
)

-- Whichever compiler the program is built with, the bit counts of a word of 64 bits and of a word
-- of 32 bits are the same.
pub bit_counts-portable :
    (branch : Branch) (x y : ℕ)
    → x < 2 ^ 64
    → y < 2 ^ 32
    → ((bit_counts branch).clz_of x ≡ clz x)
      × ((bit_counts branch).ctz_of x ≡ ctz x)
      × ((bit_counts branch).popcnt_of x ≡ popcnt x)
      × ((bit_counts branch).clz32_of y ≡ clz32 y)
      × ((bit_counts branch).ctz32_of y ≡ ctz32 y)
      × ((bit_counts branch).popcnt32_of y ≡ popcnt32 y)
unfolding bit_counts popcnt popcnt_msvc popcnt32 popcnt32_msvc
bit_counts-portable gnu x y small small' = (refl, refl, refl, refl, refl, refl)
bit_counts-portable msvc x y small small' =
    let (lead, trail) = clz-ctz_portable x small in
    let (lead', trail') = clz32-ctz32_portable y small' in (lead, trail, refl, lead', trail', refl)

-- `clz` of a word that is not zero counts the zeros above its highest one.
pub clz-lt : (x : ℕ) → x < 2 ^ 64 → x ≢ 0 → clz x < 64
unfolding clz
clz-lt x small ne = ground (arith, leading_zeros-le 64 x, leading_zeros-full x small)

pub clz-top : (x k : ℕ) → x ≢ 0 → k + suc (clz x) ≡ 64 → bit x k ≡ 1
unfolding clz
clz-top x k ne e = leading_zeros-top 64 x k (ground arith)

pub clz-above : (x k : ℕ) → k < 64 → 64 ≤ k + clz x → bit x k ≡ 0
unfolding clz
clz-above x k lt h = elim (Bool-cases (x == 0)) [
  | inl e ↦ rw ((==_iff x 0).0 e) (bit-zero k)
  | inr e ↦ leading_zeros-above 64 x k lt (ground arith)
]

-- For a word `x` that is not zero, `log2 x` is the exponent of the power of two below `x`.
pub log2_bounds : (x : ℕ) → 0 < x → x < 2 ^ 64 → (2 ^ log2 x ≤ x) × (x < 2 ^ (log2 x + 1))
unfolding log2
log2_bounds x pos small =
    let ne : x ≢ 0 = λ e. absurd (omega arith) in
    let short : clz x < 64 = clz-lt x small ne in
    let e : (64 + 2 ^ 64 - clz x - 1) % 2 ^ 64 ≡ 63 - clz x = omega arith in
    rw e (
      pow-le_of_bit x (63 - clz x) (clz-top x (63 - clz x) ne (omega arith)),
      lt_of_bits 64 (63 - clz x + 1) x small (λ k lt le. clz-above x k lt (omega arith)),
    )
