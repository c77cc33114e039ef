-- ===== src/LfStack/Moves.antt =====
-- Each kind of step keeps the invariant. In a run of fewer than 2 ^ 64 steps the tag does not wrap.
use np_alloc.Prelude.{
  ℕ, suc, ◌^◌, ◌<◌, ◌≡◌, ◌≢◌, inl, inr, refl, subst, fun_ext, true, false, List, [], ◌∷◌, arith,
  has, ◌==◌, Bool-cases, ==_iff,
}
use np_alloc.LfStack.{Ptr, null, Head, Shared, next_aba, update, Pc, idle, walking, popped}
use np_alloc.LfStack.System.{Owner, held, stacked, outside, grab, System}
use np_alloc.LfStack.Chain.{Chain, Chain-update, Chain-head, ne_of_has}
use np_alloc.LfStack.Invariant.{Local, Inv, Spares, Local-Spares}

abbrev pub sys : Shared → (Ptr → Owner) → (ℕ → Pc) → System
sys m o pc = record { mem = m; owner = o; pc = pc }

abbrev pub mem : Head → (Ptr → Ptr) → Shared
mem h n = record { head = h; next = n }

-- Two threads do not hold one node.
held_inj : (i j : ℕ) (o : Owner) → o ≡ held i → o ≡ held j → i ≡ j
held_inj i j o p q = ground arith

grab-ne-stacked : (i : ℕ) (o : Owner) → grab i o ≢ stacked
grab-ne-stacked i outside = cc
grab-ne-stacked i (held j) = cc
grab-ne-stacked i stacked = cc

module _ {m m' : Shared} {o o' : Ptr → Owner} (pc : ℕ → Pc) (i : ℕ) where
  locals :
      (p : Pc)
      → ((j : ℕ) → Local m o j (pc j))
      → ((j : ℕ) → i ≢ j → Spares m m' o o' j)
      → Local m' o' i p
      → (j : ℕ) → Local m' o' j (update pc i p j)
  locals p old spare new j = elim (Bool-cases (i == j)) [
    | inl same ↦ rw same (subst (λ x. Local m' o' x p) ((==_iff i j).0 same) new)
    | inr other ↦ rw other (Local-Spares (spare j (λ e. ground arith)) (pc j) (old j))
  ]

module _ {k : ℕ} {h : Head} {n : Ptr → Ptr} {o : Ptr → Owner} {pc : ℕ → Pc} {l : List Ptr}
    (inv : Inv k (sys (mem h n) o pc) l) (i : ℕ) where
  here : Local (mem h n) o i (pc i)
  here = inv.local i

  -- A step that writes nothing that is shared.
  pub quiet : (p : Pc) → Local (mem h n) o i p → Inv (suc k) (sys (mem h n) o (update pc i p)) l
  quiet p new = record {
    chain = inv.chain;
    inside = inv.inside;
    all = inv.all;
    tags = omega (arith, inv.tags);
    local = locals pc i p inv.local spare new;
  }
    where
      spare : (j : ℕ) → i ≢ j → Spares (mem h n) (mem h n) o o j
      spare j ne = record {
        head = inl refl;
        top = λ _ _. refl;
        owns = λ q e. e;
        keeps = λ q e. refl;
      }

  held-not-inside : (p : Ptr) → o p ≡ held i → has p l ≡ false
  held-not-inside p own = ground (arith, inv.inside p)

  head-inside : h.ptr ≢ null → has h.ptr l ≡ true
  head-inside ne = Chain-head n h.ptr l inv.chain ne

  -- A write to a node that the thread holds.
  pub link :
      (p v : Ptr) (pc' : Pc)
      → o p ≡ held i
      → Local (mem h (update n p v)) o i pc'
      → Inv (suc k) (sys (mem h (update n p v)) o (update pc i pc')) l
  link p v pc' own new = record {
    chain = Chain-update n p v h.ptr l (held-not-inside p own) inv.chain;
    inside = inv.inside;
    all = inv.all;
    tags = omega (arith, inv.tags);
    local = locals pc i pc' inv.local spare new;
  }
    where
      spare : (j : ℕ) → i ≢ j → Spares (mem h n) (mem h (update n p v)) o o j
      spare j ne = record {
        head = inl refl;
        top = λ live _. rw (ne_of_has l h.ptr p (head-inside live) (held-not-inside p own));
        owns = λ q e. e;
        keeps = λ q e. ground (arith, held_inj i j (o p));
      }

  -- A client writes to a node that it holds.
  pub wrote :
      (p v : Ptr) → pc i ≡ idle → o p ≡ held i → Inv (suc k) (sys (mem h (update n p v)) o pc) l
  wrote p v at own =
      subst (λ x. Inv (suc k) (sys (mem h (update n p v)) o x) l) same (link p v idle own tt)
    where
      same : update pc i idle ≡ pc
      same = fun_ext λ j. ground arith

  -- A successful compare-exchange of `push`.
  pub push_won :
      (p : Ptr) (h' : Head) (pc' : Pc)
      → o p ≡ held i
      → p ≢ null
      → h'.ptr ≡ p
      → h'.aba ≡ next_aba h
      → n p ≡ h.ptr
      → suc k < 2 ^ 64
      → Local (mem h' n) (update o p stacked) i pc'
      → Inv (suc k) (sys (mem h' n) (update o p stacked) (update pc i pc')) (p ∷ l)
  push_won p h' pc' own ne ptr tag linked small new = record {
    chain = (ptr, ne, held-not-inside p own, rw linked inv.chain);
    inside = λ q m. ground (arith, inv.inside q);
    all = λ q m. ground (arith, inv.all q);
    tags = omega (arith, inv.tags);
    local = locals pc i pc' inv.local spare new;
  }
    where
      spare : (j : ℕ) → i ≢ j → Spares (mem h n) (mem h' n) o (update o p stacked) j
      spare j ne = record {
        head = inr (omega (arith, inv.tags));
        top = λ _ _. refl;
        owns = λ q e. ground (arith, held_inj i j (o p));
        keeps = λ q e. refl;
      }

  -- A successful compare-exchange of `pop`.
  pub pop_won :
      (p : Ptr) (l' : List Ptr) (h' : Head)
      → l ≡ p ∷ l'
      → h'.ptr ≡ n p
      → h'.aba ≡ next_aba h
      → suc k < 2 ^ 64
      → Inv (suc k) (sys (mem h' n) (update o p (held i)) (update pc i (popped p))) l'
  pop_won p l' h' e ptr tag small = record {
    chain = rw ptr c.3;
    inside = λ q m. ground (arith, inv.inside q, c.2, e);
    all = λ q m. ground (arith, inv.all q, e);
    tags = omega (arith, inv.tags);
    local = locals pc i (popped p) inv.local spare tt;
  }
    where
      c : Chain n h.ptr (p ∷ l')
      c = subst (λ x. Chain n h.ptr x) e inv.chain

      mine : o p ≡ stacked
      mine = inv.inside p (rw e (ground arith))

      spare : (j : ℕ) → i ≢ j → Spares (mem h n) (mem h' n) o (update o p (held i)) j
      spare j ne = record {
        head = inr (omega (arith, inv.tags));
        top = λ _ _. refl;
        owns = λ q e. ground (arith, mine);
        keeps = λ q e. refl;
      }

  -- A successful compare-exchange of `for_each`.
  pub grab_won :
      (h' : Head)
      → h'.ptr ≡ null
      → h'.aba ≡ next_aba h
      → suc k < 2 ^ 64
      → Inv (suc k) (sys (mem h' n) (λ q. grab i (o q)) (update pc i (walking h.ptr []))) []
  grab_won h' ptr tag small = record {
    chain = ptr;
    inside = λ q m. cc;
    all = λ q m. absurd (grab-ne-stacked i (o q) m);
    tags = omega (arith, inv.tags);
    local =
        locals pc i (walking h.ptr []) inv.local spare (l, inv.chain, λ q m. rw (inv.inside q m));
  }
    where
      spare : (j : ℕ) → i ≢ j → Spares (mem h n) (mem h' n) o (λ q. grab i (o q)) j
      spare j ne = record {
        head = inr (omega (arith, inv.tags));
        top = λ _ _. refl;
        owns = λ q e. rw e;
        keeps = λ q e. refl;
      }

  -- A node that nobody has used comes to a thread.
  pub obtained : (p : Ptr) → o p ≡ outside → Inv (suc k) (sys (mem h n) (update o p (held i)) pc) l
  obtained p out = record {
    chain = inv.chain;
    inside = λ q m. ground (arith, inv.inside q m);
    all = λ q m. ground (arith, inv.all q);
    tags = omega (arith, inv.tags);
    local = λ j. Local-Spares (spare j) (pc j) (inv.local j);
  }
    where
      spare : (j : ℕ) → Spares (mem h n) (mem h n) o (update o p (held i)) j
      spare j = record {
        head = inl refl;
        top = λ _ _. refl;
        owns = λ q e. ground arith;
        keeps = λ q e. refl;
      }
