-- ===== src/LfStack/Accesses.antt =====
-- Each access keeps the invariant, and its event accounts for what it does to the stack.
use np_alloc.Prelude.{
  ℕ, suc, ◌^◌, ◌<◌, ◌≡◌, ◌≢◌, inl, inr, refl, sym, ap, ◌∙◌, Bool, true, false, ◌&&◌, List, [], ◌∷◌,
  some, arith, has, ◌==◌, Bool-cases, ==_iff,
}
use np_alloc.LfStack.{
  Ptr, null, Head, Shared, Cont, return, walk, resume, load_event, exchange, access, head_eq,
  next_aba, head_t, Event, silent, put, took, grabbed, Pc, update, idle, start_pop, popping,
  pop_cas, popped, start_push, pushing, push_cas, start_for_each, grabbing, grab_cas, walking,
  walked,
}
use np_alloc.LfStack.System.{Owner, stacked, owned, apply}
use np_alloc.LfStack.Chain.{Chain, Chain-update, ne_of_has}
use np_alloc.LfStack.Invariant.{Seen, Continues, Holds, Local, Inv}
use np_alloc.LfStack.Moves.{sys, mem, quiet, link, push_won, pop_won, grab_won}

Chain-null : (n : Ptr → Ptr) (p : Ptr) (l : List Ptr) → Chain n p l → p ≡ null → l ≡ []
Chain-null n p [] c e = refl
Chain-null n p (q ∷ l) c e = absurd (c.1 (sym c.0 ∙ e))

pub Chain-live :
    (n : Ptr → Ptr) (p : Ptr) (l : List Ptr)
    → Chain n p l
    → p ≢ null
    → (l' : List Ptr) × (l ≡ p ∷ l') × Chain n (n p) l' × (has p l' ≡ false)
Chain-live n p [] c live = absurd (live c)
Chain-live n p (q ∷ l) c live = (l, rw c.0, rw c.0 c.3, rw c.0 c.2)

head_eq→eq : (a b : Head) → head_eq a b ≡ true → b ≡ a
head_eq→eq a b h = ground arith

-- The list after an access, and that the event accounts for it.
abbrev pub Kept :
    (k : ℕ) (o : Ptr → Owner) (pc : ℕ → Pc) (l : List Ptr) (i : ℕ) → Shared × Pc × Event → Type 0
Kept k o pc l i r =
    (l' : List Ptr) × (apply r.2 l ≡ some l')
    × Inv (suc k) (sys r.0 (owned i r.2 o) (update pc i r.1)) l'

module _ {k : ℕ} {h : Head} {n : Ptr → Ptr} {o : Ptr → Owner} {pc : ℕ → Pc} {l : List Ptr}
    (inv : Inv k (sys (mem h n) o pc) l) (i : ℕ) where
  Kept-quiet : (p : Pc) → Local (mem h n) o i p → Kept k o pc l i (mem h n, p, silent)
  unfolding apply
  Kept-quiet p new = (l, refl, quiet inv i p new)

  Kept-load : (p : Pc) → Local (mem h n) o i p → Kept k o pc l i (mem h n, p, load_event (mem h n))
  unfolding apply load_event
  Kept-load p new = elim (Bool-cases (h.ptr == null)) [
    | inl e ↦
        let z : l ≡ [] = Chain-null n h.ptr l inv.chain ((==_iff h.ptr null).0 e) in
        rw e (l, rw z, quiet inv i p new)
    | inr e ↦ rw e (l, refl, quiet inv i p new)
  ]

  Kept-exchange :
      (lucky : Bool) (curr next : Head) (won lost : Pc) (e f : Event)
      → (curr ≡ h → Kept k o pc l i (mem next n, won, e))
      → Kept k o pc l i (mem h n, lost, f)
      → Kept k o pc l i (exchange lucky (mem h n) curr next won e lost f)
  unfolding exchange
  Kept-exchange lucky curr next won lost e f yes_ no_ =
      elim (Bool-cases (lucky && head_eq h curr)) [
        | inl t ↦ rw t (yes_ (head_eq→eq h curr (ground arith)))
        | inr t ↦ rw t no_
      ]

  fresh : Seen h h
  fresh = (omega arith, λ _. refl)

  resume-Local :
      (j : Cont) (p : Ptr) (h' : Head)
      → Continues (mem h n) o i p j
      → Local (mem h' n) (update o p stacked) i (resume j)
  unfolding resume
  resume-Local return p h' c = tt
  resume-Local (walk next visited) p h' (l, c, own, out) =
      (l, c, λ q m. rw (ne_of_has l q p m out) (own q m))

  Kept-pop :
      (curr next : Head)
      → Local (mem h n) o i (pop_cas curr next)
      → suc k < 2 ^ 64
      → curr ≡ h
      → Kept k o pc l i (mem next n, popped curr.ptr, took curr.ptr)
  unfolding apply
  Kept-pop curr next (seen, live, tag, read) small e =
      let same : curr.ptr ≡ h.ptr = ap (λ (x : Head). x.ptr) e in
      let now : curr.aba ≡ h.aba = ap (λ (x : Head). x.aba) e in
      let (l', cells, rest, out) = Chain-live n h.ptr l inv.chain (λ z. live (same ∙ z)) in
      let cells' : l ≡ curr.ptr ∷ l' = rw same cells in
      (
        l',
        rw cells' (ground arith),
        pop_won inv i curr.ptr l' next cells' (sym (read now)) (rw (← e) tag) small,
      )

  Kept-push :
      (j : Cont) (p : Ptr) (curr next : Head)
      → Local (mem h n) o i (push_cas j p curr next)
      → suc k < 2 ^ 64
      → curr ≡ h
      → Kept k o pc l i (mem next n, resume j, put p)
  unfolding apply
  Kept-push j p curr next (seen, (own, live, c), tag, ptr, linked) small e = (
    p ∷ l,
    refl,
    push_won inv i p next (resume j) own live ptr (rw (← e) tag)
        (linked ∙ ap (λ (x : Head). x.ptr) e) small (resume-Local j p next c),
  )

  Kept-grab :
      (curr next : Head)
      → Local (mem h n) o i (grab_cas curr next)
      → suc k < 2 ^ 64
      → curr ≡ h
      → Kept k o pc l i (mem next n, walking curr.ptr [], grabbed)
  unfolding apply
  Kept-grab curr next (seen, tag, ptr) small e =
      rw (ap (λ (x : Head). x.ptr) e) ([], refl, grab_won inv i next ptr (rw (← e) tag) small)

  Kept-link :
      (j : Cont) (p : Ptr) (curr : Head)
      → Local (mem h n) o i (pushing j p curr)
      → Kept k o pc l i
          (mem h (update n p curr.ptr), push_cas j p curr (head_t (next_aba curr) p), silent)
  unfolding apply
  Kept-link return p curr (seen, (own, live, c)) =
      (l, refl, link inv i p curr.ptr _ own (seen, (own, live, tt), refl, refl, ground arith))
  Kept-link (walk next visited) p curr (seen, (own, live, (l', c, mine, out))) = (
    l,
    refl,
    link inv i p curr.ptr _ own (
      seen,
      (own, live, (l', Chain-update n p curr.ptr next l' out c, mine, out)),
      refl,
      refl,
      ground arith,
    ),
  )

  -- The top of `while (ptr)`: the list is at its end, or `ptr` is its next node.
  Kept-walk :
      (p : Ptr) (visited l' : List Ptr)
      → Chain n p l'
      → Holds o i l'
      → Kept k o pc l i (access true (mem h n) (walking p visited))
  unfolding access
  Kept-walk p visited l' c mine = elim (Bool-cases (p == null)) [
    | inl e ↦ rw e (Kept-quiet (walked visited) tt)
    | inr e ↦
        let (l'', cells, rest, out) = Chain-live n p l' c (ground arith) in
        rw e (
          Kept-quiet (start_push (walk (n p) (p ∷ visited)) p) (
            mine p (rw cells (ground arith)),
            ground arith,
            (l'', rest, λ q m. mine q (rw cells (ground arith)), out),
          ))
  ]

  pub Kept-access :
      (lucky : Bool) (p : Pc)
      → Local (mem h n) o i p
      → suc k < 2 ^ 64
      → Kept k o pc l i (access lucky (mem h n) p)
  unfolding access
  Kept-access lucky idle loc small = Kept-quiet idle tt
  Kept-access lucky start_pop loc small = Kept-load (popping h) fresh
  Kept-access lucky (popping curr) seen small = elim (Bool-cases (curr.ptr == null)) [
    | inl e ↦ rw e (Kept-quiet (popped curr.ptr) tt)
    | inr e ↦ rw e (Kept-quiet (pop_cas curr _) (seen, ground arith, refl, λ _. refl))
  ]
  Kept-access lucky (pop_cas curr next) loc small =
      Kept-exchange lucky curr next _ _ _ _ (Kept-pop curr next loc small)
        (Kept-load (popping h) fresh)
  Kept-access lucky (popped result) loc small = Kept-quiet idle tt
  Kept-access lucky (start_push j p) loc small = Kept-quiet (pushing j p h) (fresh, loc)
  Kept-access lucky (pushing j p curr) loc small = Kept-link j p curr loc
  Kept-access lucky (push_cas j p curr next) loc small =
      Kept-exchange lucky curr next _ _ _ _ (Kept-push j p curr next loc small)
        (Kept-quiet (pushing j p h) (fresh, loc.1))
  Kept-access lucky start_for_each loc small = Kept-load (grabbing h) fresh
  Kept-access lucky (grabbing curr) seen small = elim (Bool-cases (curr.ptr == null)) [
    | inl e ↦ rw e (Kept-quiet (walking curr.ptr []) ([], (==_iff curr.ptr null).0 e, λ q m. cc))
    | inr e ↦ rw e (Kept-quiet (grab_cas curr _) (seen, refl, refl))
  ]
  Kept-access lucky (grab_cas curr next) loc small =
      Kept-exchange lucky curr next _ _ _ _ (Kept-grab curr next loc small)
        (Kept-load (grabbing h) fresh)
  Kept-access lucky (walking p visited) (l', c, mine) small = Kept-walk p visited l' c mine
  Kept-access lucky (walked visited) loc small = Kept-quiet idle tt
