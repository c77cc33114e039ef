-- ===== src/Util.antt =====
-- src/util.cpp: hexadecimal text and lines of text. A character is its code, 0 to 255.
pub mod Hex
pub mod Lines
pub mod Contract
use np_alloc.Prelude.{
  ℕ, ◌+◌, ◌-◌, ◌*◌, ◌/◌, ◌%◌, ◌^◌, ◌==◌, leb, Bool, true, false, ◌&&◌, List, [], ◌∷◌, ◌++◌,
  if◌then◌else◌, length, get_or,
}
use Prim.Native.Nat.{bit_and}
use mathlib.Core.List.{reverse}

-- The value of a `byte`.
unfoldable pub char_to_byte : ℕ → ℕ
char_to_byte c =
    if leb 48 c && leb c 57
    then c - 48
    else if leb 97 c && leb c 102
    then 10 + (c - 97)
    else if leb 65 c && leb c 70
    then 10 + (c - 65)
    else 255

-- `char_to_byte(b) == -1`: both sides are an `int`, in which a `byte` is at most 255.
unfoldable pub is_minus_one : ℕ → Bool
is_minus_one b = b == 2 ^ 32 - 1

unfoldable pub is_hex : List ℕ → Bool
is_hex [] = true
is_hex (b ∷ bin) = if is_minus_one (char_to_byte b) then false else is_hex bin

unfoldable pub is_hexstring : List ℕ → Bool
is_hexstring bin = if length bin % 2 == 1 then false else is_hex bin

-- "0123456789abcdef"
abbrev pub hex_char : List ℕ
hex_char = 48 ∷ 49 ∷ 50 ∷ 51 ∷ 52 ∷ 53 ∷ 54 ∷ 55 ∷ 56 ∷ 57 ∷ 97 ∷ 98 ∷ 99 ∷ 100 ∷ 101 ∷ 102 ∷ []

unfoldable pub binary_to_hexstring : List ℕ → List ℕ
binary_to_hexstring [] = []
binary_to_hexstring (b ∷ bin) =
    get_or hex_char (bit_and b 240 / 16) 0
    ∷ get_or hex_char (bit_and b 15) 0
    ∷ binary_to_hexstring bin

-- The loop over pairs of characters.
unfoldable pub pairs_to_binary : List ℕ → List ℕ
pairs_to_binary [] = []
pairs_to_binary (c ∷ []) = []
pairs_to_binary (c ∷ d ∷ s) =
    (((char_to_byte c * 16) % 256 + char_to_byte d) % 256) ∷ pairs_to_binary s

unfoldable pub hexstring_to_binary : List ℕ → List ℕ
hexstring_to_binary bin = if length bin % 2 == 1 then [] else pairs_to_binary bin

-- `split` with `item` read so far, the latest character first: `std::getline` gives no item after
-- the last delimiter.
unfoldable pub split_from : (delim : ℕ) → List ℕ → (item : List ℕ) → List (List ℕ)
split_from delim [] [] = []
split_from delim [] (c ∷ item) = reverse (c ∷ item) ∷ []
split_from delim (c ∷ s) item =
    let rest = split_from delim s [] in
    let more = split_from delim s (c ∷ item) in if c == delim then reverse item ∷ rest else more

unfoldable pub split : List ℕ → (delim : ℕ) → List (List ℕ)
split s delim = split_from delim s []

unfoldable pub tab_lines : List (List ℕ) → List ℕ
tab_lines [] = []
tab_lines (line ∷ lines) = (9 ∷ line) ++ (10 ∷ tab_lines lines)

unfoldable pub tab_strings : List ℕ → List ℕ
tab_strings s = tab_lines (split s 10)

-- `normalize_newline` changes nothing yet.
unfoldable pub normalize_newline : List ℕ → List ℕ
normalize_newline s = s

-- `system_clock`.
pub record Clock : Type 1 where
  pub TimePoint : Type 0
  pub now : TimePoint
  pub to_time_t : TimePoint → ℕ

unfoldable pub time_since_epoch : Clock → ℕ
time_since_epoch clock = clock.to_time_t clock.now
