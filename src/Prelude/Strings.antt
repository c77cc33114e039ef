-- ===== src/Prelude/Strings.antt =====
-- Text as the codes of its characters.
use Prim.Native.Nat.{ℕ}
use Prim.Native.Char.{code}
use Prim.Native.String.{String}
use mathlib.Core.Bool.{Bool}
use mathlib.Core.List.{List, [], ◌∷◌}

abbrev pub Text : Type 0
Text = List ℕ

abbrev pub codes : String → Text
codes String.[] = []
codes (String.◌∷◌ c s) = code c ∷ codes s

-- What the program writes to a stream: a number in base 16 or 10 with a least width, as the
-- stream's `operator<<` writes it.
abbrev pub Show : Type 0
Show = (hex : Bool) → (width n : ℕ) → Text
