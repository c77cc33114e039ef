-- ===== src/LfStack/Chain.antt =====
-- The list that a pointer leads through.
use np_alloc.Prelude.{◌==◌, ◌≡◌, ◌≢◌, true, false, List, [], ◌∷◌, arith, has}
use np_alloc.LfStack.{Ptr, null, update}

-- From `p` the `next` fields lead through the distinct nodes `l` to `nullptr`.
abbrev pub Chain : (Ptr → Ptr) → Ptr → List Ptr → Type 0
Chain next p [] = p ≡ null
Chain next p (q ∷ l) = (p ≡ q) × (q ≢ null) × (has q l ≡ false) × Chain next (next q) l

pub Chain-frame :
    (next next' : Ptr → Ptr) (p : Ptr) (l : List Ptr)
    → ((q : Ptr) → has q l ≡ true → next' q ≡ next q)
    → Chain next p l
    → Chain next' p l
Chain-frame next next' p [] same c = c
Chain-frame next next' p (q ∷ l) same c = (
  c.0,
  c.1,
  c.2,
  rw (same q (ground arith)) (Chain-frame next next' (next q) l (λ r h. same r (ground arith)) c.3),
)

pub ne_of_has : (l : List Ptr) (q r : Ptr) → has q l ≡ true → has r l ≡ false → (r == q) ≡ false
ne_of_has l q r h out = ground arith

-- A write to a node outside the chain.
pub Chain-update :
    (next : Ptr → Ptr) (r v p : Ptr) (l : List Ptr)
    → has r l ≡ false
    → Chain next p l
    → Chain (update next r v) p l
Chain-update next r v p l out c =
    Chain-frame next (update next r v) p l (λ q h. rw (ne_of_has l q r h out)) c

pub Chain-head :
    (next : Ptr → Ptr) (p : Ptr) (l : List Ptr) → Chain next p l → p ≢ null → has p l ≡ true
Chain-head next p [] c live = absurd (live c)
Chain-head next p (q ∷ l) c live = ground arith
