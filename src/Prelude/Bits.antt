-- ===== src/Prelude/Bits.antt =====
-- The binary digits of a number, and what the native bit operations do to each digit.
use Prim.Native.Nat.{
  ℕ, zero, suc, ◌+◌, ◌-◌, ◌*◌, ◌/◌, ◌%◌, ◌^◌, ◌≤◌, ◌<◌, min, max, digits, bitwise, bit_and, bit_or,
  bit_and-bitwise, bit_or-bitwise,
}
use mathlib.Core.Path.{◌≡◌, refl, sym, ap, ◌∙◌}
use mathlib.Core.Logic.{◌≢◌, inl, inr}
use np_alloc.Prelude.Tests.{◌==◌, if◌then◌else◌, Bool-cases, ==_iff}
use native.Mathlib.Nat.{
  pow-suc, pow-succ', div-div-eq-div-mul, one-le-pow, div-add-mod', mod-lt, mod-eq_of_lt,
  add-mul-mod_self_right,
}
use native.Mathlib.Omega.{arith}

-- The bit of weight `2 ^ k`.
unfoldable pub bit : ℕ → ℕ → ℕ
bit a zero = a % 2
bit a (suc k) = bit (a / 2) k

-- A native bit operation is `bitwise whole digit`: `whole` is its result where the left number is 0,
-- and `digit` its result on two digits.
module _ (whole : ℕ → ℕ) (digit : ℕ → ℕ → ℕ)
    (agree : (y : ℕ) → whole y ≡ digit 0 (y % 2) + 2 * whole (y / 2)) where
  no_digits : (k y : ℕ) → digits whole digit k 0 y ≡ whole y
  no_digits zero y = refl
  no_digits (suc k) y = refl

  same_digits : (x y k l : ℕ) → x ≤ k → x ≤ l → digits whole digit k x y ≡ digits whole digit l x y
  same_digits zero y k l le le' = no_digits k y ∙ sym (no_digits l y)
  same_digits (suc x) y (suc k) (suc l) le le' =
      ap (λ r. r * 2 + digit (suc x % 2) (y % 2))
        (same_digits (suc x / 2) (y / 2) k l (omega arith) (omega arith))
  same_digits (suc x) y zero l le le' = absurd (omega arith)
  same_digits (suc x) y (suc k) zero le le' = absurd (omega arith)

  lowest_digit :
      (x y : ℕ)
      → bitwise whole digit x y ≡ digit (x % 2) (y % 2) + 2 * bitwise whole digit (x / 2) (y / 2)
  lowest_digit zero y = agree y
  lowest_digit (suc x) y =
      let half = suc x / 2 in
      omega (arith, same_digits half (y / 2) x half (omega arith) (omega arith))

pub bit_or_step : (x y : ℕ) → bit_or x y ≡ max (x % 2) (y % 2) + 2 * bit_or (x / 2) (y / 2)
bit_or_step x y = simp bit_or-bitwise (lowest_digit (λ r. r) max (λ r. omega arith) x y)

pub bit_and_step : (x y : ℕ) → bit_and x y ≡ min (x % 2) (y % 2) + 2 * bit_and (x / 2) (y / 2)
bit_and_step x y = simp bit_and-bitwise (lowest_digit (λ r. 0) min (λ r. omega arith) x y)

pub bit-le-one : (a k : ℕ) → bit a k ≤ 1
unfolding bit
bit-le-one a zero = omega arith
bit-le-one a (suc k) = bit-le-one (a / 2) k

pub bit-zero : (k : ℕ) → bit 0 k ≡ 0
unfolding bit
bit-zero zero = refl
bit-zero (suc k) = bit-zero k

pub bit-bit_or : (a b k : ℕ) → bit (bit_or a b) k ≡ max (bit a k) (bit b k)
unfolding bit
bit-bit_or a b zero = omega (arith, bit_or_step a b)
bit-bit_or a b (suc k) =
    let e : bit_or a b / 2 ≡ bit_or (a / 2) (b / 2) = omega (arith, bit_or_step a b) in
    rw e (bit-bit_or (a / 2) (b / 2) k)

pub bit-bit_and : (a b k : ℕ) → bit (bit_and a b) k ≡ min (bit a k) (bit b k)
unfolding bit
bit-bit_and a b zero = omega (arith, bit_and_step a b)
bit-bit_and a b (suc k) =
    let e : bit_and a b / 2 ≡ bit_and (a / 2) (b / 2) = omega (arith, bit_and_step a b) in
    rw e (bit-bit_and (a / 2) (b / 2) k)

pow-half : (k : ℕ) → 2 ^ suc k / 2 ≡ 2 ^ k
pow-half k = omega (arith, pow-suc 2 k)

pub bit-pow_self : (k : ℕ) → bit (2 ^ k) k ≡ 1
unfolding bit
bit-pow_self zero = refl
bit-pow_self (suc k) = rw (pow-half k) (bit-pow_self k)

pub bit-pow_ne : (m k : ℕ) → m ≢ k → bit (2 ^ m) k ≡ 0
unfolding bit
bit-pow_ne zero zero h = absurd (h refl)
bit-pow_ne zero (suc k) h = bit-zero k
bit-pow_ne (suc m) zero h = omega (arith, pow-suc 2 m)
bit-pow_ne (suc m) (suc k) h = rw (pow-half m) (bit-pow_ne m k (λ e. h (ap suc e)))

pub bit-pow : (m k : ℕ) → bit (2 ^ m) k ≡ (if m == k then 1 else 0)
bit-pow m k = elim (Bool-cases (m == k)) [
  | inl e ↦ rw e (rw ((==_iff m k).0 e) (bit-pow_self k))
  | inr e ↦ rw e (bit-pow_ne m k (λ h. ground arith))
]

-- Bits past the width of a number are zero.
pub bit_of_lt : (w a k : ℕ) → a < 2 ^ w → w ≤ k → bit a k ≡ 0
unfolding bit
bit_of_lt zero a k h le = let e : a ≡ 0 = omega arith in rw e (bit-zero k)
bit_of_lt (suc w) a zero h le = absurd (omega arith)
bit_of_lt (suc w) a (suc k) h le = bit_of_lt w (a / 2) k (omega (arith, pow-suc 2 w)) (omega arith)

-- A number is determined by its bits.
pub eq_of_bit : (w a b : ℕ) → a < 2 ^ w → b < 2 ^ w → ((k : ℕ) → k < w → bit a k ≡ bit b k) → a ≡ b
unfolding bit
eq_of_bit zero a b ha hb h = omega arith
eq_of_bit (suc w) a b ha hb h =
    let low : a % 2 ≡ b % 2 = h 0 (omega arith) in
    let high : a / 2 ≡ b / 2 =
      eq_of_bit w (a / 2) (b / 2) (omega (arith, pow-suc 2 w)) (omega (arith, pow-suc 2 w))
        (λ k lt. h (suc k) (omega arith)) in
    omega arith

pub bit_or-lt : (w a b : ℕ) → a < 2 ^ w → b < 2 ^ w → bit_or a b < 2 ^ w
bit_or-lt zero a b ha hb =
    let ea : a ≡ 0 = omega arith in let eb : b ≡ 0 = omega arith in rw (ea, eb) (omega arith)
bit_or-lt (suc w) a b ha hb = omega (
  arith,
  pow-suc 2 w,
  bit_or_step a b,
  bit_or-lt w (a / 2) (b / 2) (omega (arith, pow-suc 2 w)) (omega (arith, pow-suc 2 w)),
)

pub bit_and-lt : (w a b : ℕ) → a < 2 ^ w → b < 2 ^ w → bit_and a b < 2 ^ w
bit_and-lt zero a b ha hb =
    let ea : a ≡ 0 = omega arith in let eb : b ≡ 0 = omega arith in rw (ea, eb) (omega arith)
bit_and-lt (suc w) a b ha hb = omega (
  arith,
  pow-suc 2 w,
  bit_and_step a b,
  bit_and-lt w (a / 2) (b / 2) (omega (arith, pow-suc 2 w)) (omega (arith, pow-suc 2 w)),
)

-- `~a` at width `w` flips each bit below `w`.
pub bit-complement : (w a k : ℕ) → a < 2 ^ w → k < w → bit (2 ^ w - 1 - a) k ≡ 1 - bit a k
unfolding bit
bit-complement zero a k h lt = absurd (omega arith)
bit-complement (suc w) a zero h lt = omega (arith, pow-suc 2 w)
bit-complement (suc w) a (suc k) h lt =
    let e : (2 ^ suc w - 1 - a) / 2 ≡ 2 ^ w - 1 - a / 2 = omega (arith, pow-suc 2 w) in
    rw e (bit-complement w (a / 2) k (omega (arith, pow-suc 2 w)) (omega arith))

-- Truncation to `w` bits.
half-mod : (w a : ℕ) → a % 2 ^ suc w / 2 ≡ a / 2 % 2 ^ w
half-mod w a =
    let m = 2 ^ w in
    let q = a / 2 ^ suc w in
    let r = a % 2 ^ suc w in
    let whole : q * 2 ^ suc w + r ≡ a = div-add-mod' a (2 ^ suc w) in
    let wide : q * 2 ^ suc w ≡ 2 * (q * m) = omega (arith, ap (λ (t : ℕ). q * t) (pow-suc 2 w)) in
    let small : r < 2 ^ suc w = mod-lt a (one-le-pow (suc w) 2 (omega arith)) in
    let halves : a / 2 ≡ r / 2 + q * m = omega arith in
    rw (halves, add-mul-mod_self_right)
      (sym (mod-eq_of_lt {n = r / 2} {m = m} (omega (arith, pow-suc 2 w))))

pub bit-mod : (w a k : ℕ) → k < w → bit (a % 2 ^ w) k ≡ bit a k
unfolding bit
bit-mod zero a k lt = absurd (omega arith)
bit-mod (suc w) a zero lt =
    let whole : a / 2 ^ suc w * 2 ^ suc w + a % 2 ^ suc w ≡ a = div-add-mod' a (2 ^ suc w) in
    let wide : a / 2 ^ suc w * 2 ^ suc w ≡ 2 * (a / 2 ^ suc w * 2 ^ w) =
      omega (arith, ap (λ (t : ℕ). a / 2 ^ suc w * t) (pow-suc 2 w)) in
    omega arith
bit-mod (suc w) a (suc k) lt = rw half-mod (bit-mod w (a / 2) k (omega arith))

-- A left shift in `q + p` bits and back drops the top `p` bits.
pub shift_round : (p q a : ℕ) → a * 2 ^ p % 2 ^ (q + p) / 2 ^ p ≡ a % 2 ^ q
shift_round zero q a =
    let e : a * 2 ^ 0 ≡ a = omega arith in
    let f : q + 0 ≡ q = omega arith in rw (e, f) (omega arith)
shift_round (suc p) q a =
    let top : q + suc p ≡ suc (q + p) = omega arith in
    let split : (x : ℕ) → x / 2 ^ suc p ≡ x / 2 / 2 ^ p =
      λ x. ap (λ (t : ℕ). x / t) (pow-succ' 2 p) ∙ sym (div-div-eq-div-mul x 2 (2 ^ p)) in
    let less : a * 2 ^ suc p / 2 ≡ a * 2 ^ p = omega (arith, ap (λ (t : ℕ). a * t) (pow-suc 2 p)) in
    rw top (rw split (rw half-mod (rw less (shift_round p q a))))

pub lt_of_bits : (w j x : ℕ) → x < 2 ^ w → ((k : ℕ) → k < w → j ≤ k → bit x k ≡ 0) → x < 2 ^ j
unfolding bit
lt_of_bits w zero x small h =
    let e : x ≡ 0 =
      eq_of_bit w x 0 small (one-le-pow w 2 (omega arith))
        (λ k lt. h k lt (omega arith) ∙ sym (bit-zero k)) in
    omega arith
lt_of_bits zero (suc j) x small h = omega (arith, one-le-pow (suc j) 2)
lt_of_bits (suc w) (suc j) x small h =
    omega (arith, pow-suc 2 j, lt_of_bits w j (x / 2) (omega (arith, pow-suc 2 w)) rest)
  where
    rest : (k : ℕ) → k < w → j ≤ k → bit (x / 2) k ≡ 0
    rest k lt le = h (suc k) (omega arith) (omega arith)

pub pow-le_of_bit : (x k : ℕ) → bit x k ≡ 1 → 2 ^ k ≤ x
pow-le_of_bit x k e = ground (arith, bit_of_lt k x k)
