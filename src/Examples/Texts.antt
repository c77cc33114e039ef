-- ===== src/Examples/Texts.antt =====
-- The text functions of src/util.cpp.
use np_alloc.Prelude.{ℕ, ◌*◌, ◌≡◌, refl, true, List, [], ◌∷◌, length, arith}
use np_alloc.Util.{is_hexstring, binary_to_hexstring, hexstring_to_binary, split}
use np_alloc.Util.Hex.{hexstring_to_binary-binary_to_hexstring}
use np_alloc.Util.Lines.{join, split-join}

-- Two bytes.
abbrev bytes : List ℕ
bytes = 254 ∷ 7 ∷ []

hexstring_to_binary-binary_to_hexstring_example :
    (length (binary_to_hexstring bytes) ≡ 2 * length bytes)
    × (is_hexstring (binary_to_hexstring bytes) ≡ true)
    × (hexstring_to_binary (binary_to_hexstring bytes) ≡ bytes)
hexstring_to_binary-binary_to_hexstring_example =
    hexstring_to_binary-binary_to_hexstring bytes (omega arith, (omega arith, tt))

split-join_example :
    split (join 10 ((97 ∷ []) ∷ [] ∷ (98 ∷ []) ∷ [])) 10 ≡ (97 ∷ []) ∷ [] ∷ (98 ∷ []) ∷ []
split-join_example = split-join 10 ((97 ∷ []) ∷ [] ∷ (98 ∷ []) ∷ []) (refl, (refl, (refl, tt)))
