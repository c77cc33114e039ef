-- ===== src/Util/Hex.antt =====
-- Hexadecimal text stands for the bytes that it was made from.
use np_alloc.Prelude.{
  ℕ, zero, suc, ◌+◌, ◌-◌, ◌*◌, ◌/◌, ◌%◌, ◌^◌, ◌<◌, ◌≤◌, ◌≡◌, ◌==◌, refl, ap, ◌∙◌, Bool, true, false,
  ◌&&◌, List, [], ◌∷◌, length, get_or, arith, Bool-cases, inl, inr, ==_iff, All, ℕ_discrete,
}
use Prim.Native.Nat.{bit_and}
use np_alloc.Util.{
  char_to_byte, is_minus_one, is_hex, is_hexstring, hex_char, binary_to_hexstring, pairs_to_binary,
  hexstring_to_binary,
}

char_to_byte-le : (c : ℕ) → char_to_byte c ≤ 255
unfolding char_to_byte
char_to_byte-le c = ground arith

is_hex_all : (s : List ℕ) → is_hex s ≡ true
unfolding is_hex is_minus_one
is_hex_all [] = refl
is_hex_all (c ∷ s) =
    let never : (char_to_byte c == 2 ^ 32 - 1) ≡ false = ground (arith, char_to_byte-le c) in
    rw never (is_hex_all s)

-- `is_hexstring` tells whether the number of characters is even, and nothing else.
pub is_hexstring_lem : (s : List ℕ) → is_hexstring s ≡ (length s % 2 == 0)
unfolding is_hexstring
is_hexstring_lem s = elim (Bool-cases (length s % 2 == 1)) [
  | inl odd ↦ rw odd (ground (arith, odd))
  | inr even ↦ rw (even, is_hex_all s) (ground (arith, even))
]

-- A test that holds below `n`.
below : (test : ℕ → Bool) (n : ℕ) → Bool
below test zero = true
below test (suc n) = test n && below test n

below_at : (test : ℕ → Bool) (n i : ℕ) → below test n ≡ true → i < n → test i ≡ true
unfolding below
below_at test zero i h lt = absurd (omega arith)
below_at test (suc n) i h lt = elim (ℕ_discrete i n) [
  | yes e ↦ rw e (ground (arith, h))
  | no ne ↦ below_at test n i (ground (arith, h)) (omega arith)
]

-- One byte, there and back.
abbrev byte_back : ℕ → ℕ
byte_back b =
    ((char_to_byte (get_or hex_char (bit_and b 240 / 16) 0) * 16) % 256
      + char_to_byte (get_or hex_char (bit_and b 15) 0))
    % 256

byte_back_lem : (b : ℕ) → b < 256 → byte_back b ≡ b
unfolding below char_to_byte
byte_back_lem b lt = (==_iff (byte_back b) b).0 (below_at (λ b. byte_back b == b) 256 b refl lt)

pairs_lem :
    (bin : List ℕ) → All (λ b. b < 256) bin → pairs_to_binary (binary_to_hexstring bin) ≡ bin
unfolding pairs_to_binary binary_to_hexstring
pairs_lem [] small = refl
pairs_lem (b ∷ bin) (lt, small) =
    ap (λ x. x ∷ pairs_to_binary (binary_to_hexstring bin)) (byte_back_lem b lt)
    ∙ ap (λ s. b ∷ s) (pairs_lem bin small)

length-binary_to_hexstring : (bin : List ℕ) → length (binary_to_hexstring bin) ≡ 2 * length bin
unfolding binary_to_hexstring
length-binary_to_hexstring [] = refl
length-binary_to_hexstring (b ∷ bin) = omega (arith, length-binary_to_hexstring bin)

-- The text of a list of bytes has two characters for each byte, is a hexadecimal text, and is
-- turned back into these bytes.
pub hexstring_to_binary-binary_to_hexstring :
    (bin : List ℕ)
    → All (λ b. b < 256) bin
    → (length (binary_to_hexstring bin) ≡ 2 * length bin)
      × (is_hexstring (binary_to_hexstring bin) ≡ true)
      × (hexstring_to_binary (binary_to_hexstring bin) ≡ bin)
unfolding hexstring_to_binary
hexstring_to_binary-binary_to_hexstring bin small =
    let long = length-binary_to_hexstring bin in
    let even : (length (binary_to_hexstring bin) % 2 == 1) ≡ false = rw long (ground arith) in
    let even' : (length (binary_to_hexstring bin) % 2 == 0) ≡ true = rw long (ground arith) in
    (long, is_hexstring_lem (binary_to_hexstring bin) ∙ even', rw even (pairs_lem bin small))
