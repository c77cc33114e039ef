-- ===== src/Bitset/Word/Laws.antt =====
-- What `set` and `clear` do to each position.
use np_alloc.Prelude.{
  ℕ, ◌-◌, ◌^◌, ◌≤◌, ◌<◌, ◌≡◌, min, max, true, false, ◌==◌, bit_and, arith, if◌then◌else◌,
}
use np_alloc.Prelude.Bits.{
  bit, bit-le-one, bit-zero, bit-bit_or, bit-bit_and, bit-pow, bit-pow_self, bit-complement,
  eq_of_bit, bit_or-lt, bit_and-lt,
}
use native.Mathlib.Nat.{pow-le-pow_right}
use np_alloc.Bitset.Word.{mask, all_ones, get, set, clear}

pub mask-lt : (p : ℕ) → mask p < 2 ^ 64
mask-lt p =
    let h : 2 ^ (63 - p) ≤ 2 ^ 63 =
      pow-le-pow_right (omega arith) {i = 63 - p} {j = 63} (omega arith) in
    omega arith

bit_and-mask_ne : (b k : ℕ) → b < 2 ^ 64 → 2 ^ k < 2 ^ 64 → bit b k ≡ 0 → bit_and b (2 ^ k) ≡ 0
bit_and-mask_ne b k small lt e =
    eq_of_bit 64 (bit_and b (2 ^ k)) 0 (bit_and-lt 64 b (2 ^ k) small lt) (omega arith) same
  where
    same : (j : ℕ) → j < 64 → bit (bit_and b (2 ^ k)) j ≡ bit 0 j
    same j jl = ground (arith, bit-bit_and b (2 ^ k) j, bit-pow k j, bit-zero j, bit-le-one b j)

-- A position is a bit counted from the other end.
pub get-bit : (b p : ℕ) → b < 2 ^ 64 → get b p ≡ (bit b (63 - p) == 1)
unfolding get
get-bit b p small = ground (
  arith,
  bit_and-mask_ne b (63 - p) small (mask-lt p),
  bit-bit_and b (mask p) (63 - p),
  bit-pow_self (63 - p),
  bit-le-one b (63 - p),
  bit-zero (63 - p),
)

-- Two words with the same positions set are the same word.
pub get_ext : (a b : ℕ) → a < 2 ^ 64 → b < 2 ^ 64 → ((p : ℕ) → p < 64 → get a p ≡ get b p) → a ≡ b
get_ext a b ha hb h = eq_of_bit 64 a b ha hb same
  where
    same : (k : ℕ) → k < 64 → bit a k ≡ bit b k
    same k lt =
        let e : 63 - (63 - k) ≡ k = omega arith in
        ground (
          arith,
          e,
          h (63 - k),
          get-bit a (63 - k) ha,
          get-bit b (63 - k) hb,
          bit-le-one a k,
          bit-le-one b k,
        )

pub set-lt : (b p : ℕ) → b < 2 ^ 64 → set b p < 2 ^ 64
unfolding set
set-lt b p small = bit_or-lt 64 b (mask p) small (mask-lt p)

pub clear-lt : (b p : ℕ) → b < 2 ^ 64 → (clear b p).0 < 2 ^ 64
unfolding clear
clear-lt b p small = bit_and-lt 64 b (all_ones - mask p) small (omega (arith, mask-lt p))

-- `set` turns one position on and leaves the others.
pub get-set :
    (b p q : ℕ)
    → b < 2 ^ 64
    → p < 64
    → q < 64
    → get (set b p) q ≡ (if p == q then true else get b q)
get-set b p q small hp hq = ground (
  arith,
  get-bit (set b p) q (set-lt b p small),
  get-bit b q small,
  bits,
  bit-pow (63 - p) (63 - q),
  bit-le-one b (63 - q),
)
  where
    bits : bit (set b p) (63 - q) ≡ max (bit b (63 - q)) (bit (mask p) (63 - q))
    bits = unfold set in bit-bit_or b (mask p) (63 - q)

-- `clear` turns one position off and leaves the others, and says whether all are off.
pub get-clear :
    (b p q : ℕ)
    → b < 2 ^ 64
    → p < 64
    → q < 64
    → get (clear b p).0 q ≡ (if p == q then false else get b q)
get-clear b p q small hp hq = ground (
  arith,
  get-bit (clear b p).0 q (clear-lt b p small),
  get-bit b q small,
  bits,
  bit-complement 64 (mask p) (63 - q) (mask-lt p) (omega arith),
  bit-pow (63 - p) (63 - q),
  bit-le-one b (63 - q),
)
  where
    bits : bit (clear b p).0 (63 - q) ≡ min (bit b (63 - q)) (bit (all_ones - mask p) (63 - q))
    bits = unfold clear in bit-bit_and b (all_ones - mask p) (63 - q)
