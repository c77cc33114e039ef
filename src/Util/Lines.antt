-- ===== src/Util/Lines.antt =====
-- Splitting text at a delimiter.
use np_alloc.Prelude.{
  ℕ, ◌≡◌, ◌==◌, refl, ap, ◌∙◌, true, false, List, [], ◌∷◌, ◌++◌, All, has, arith,
}
use mathlib.Core.List.{reverse_aux}
use np_alloc.Util.{split, split_from}

-- Each line with a delimiter behind it.
abbrev pub join : (delim : ℕ) → List (List ℕ) → List ℕ
join delim [] = []
join delim (line ∷ lines) = line ++ (delim ∷ join delim lines)

split_line :
    (delim : ℕ) (line rest item : List ℕ)
    → has delim line ≡ false
    → split_from delim (line ++ (delim ∷ rest)) item
      ≡ reverse_aux item line ∷ split_from delim rest []
unfolding split_from
split_line delim [] rest item free =
    let same : (delim == delim) ≡ true = ground arith in rw same refl
split_line delim (c ∷ line) rest item free =
    let other : (c == delim) ≡ false = ground arith in
    rw other (split_line delim line rest (c ∷ item) (ground (arith, free)))

-- Lines without the delimiter, each with a delimiter behind it, are split into these lines.
pub split-join :
    (delim : ℕ) (lines : List (List ℕ))
    → All (λ line. has delim line ≡ false) lines
    → split (join delim lines) delim ≡ lines
unfolding split
split-join delim [] none = unfold split_from in refl
split-join delim (line ∷ lines) (free, rest) =
    split_line delim line (join delim lines) [] free
    ∙ ap (λ l. line ∷ l) (split-join delim lines rest)
