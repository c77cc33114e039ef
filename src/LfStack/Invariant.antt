-- ===== src/LfStack/Invariant.antt =====
-- What holds of the shared state and of each thread between two accesses.
use np_alloc.Prelude.{ℕ, ◌≤◌, ◌<◌, ◌≡◌, ◌≢◌, ◌⊎◌, inl, inr, true, false, List, arith, has, ◌∙◌}
use np_alloc.LfStack.{
  Ptr, null, Head, Shared, next_aba, Cont, return, walk, Pc, idle, start_pop, popping, pop_cas,
  popped, start_push, pushing, push_cas, start_for_each, grabbing, grab_cas, walking, walked,
}
use np_alloc.LfStack.System.{Owner, held, stacked, System}
use np_alloc.LfStack.Chain.{Chain, Chain-frame}

-- A copy of `head_` is out of date, and then its tag is smaller, or it is `head_`.
abbrev pub Seen : Head → Head → Type 0
Seen h curr = (curr.aba ≤ h.aba) × (curr.aba ≡ h.aba → curr ≡ h)

abbrev pub Holds : (Ptr → Owner) → ℕ → List Ptr → Type 0
Holds o i l = (q : Ptr) → has q l ≡ true → o q ≡ held i

-- What is left of the list that `for_each` has taken.
abbrev pub Rest : Shared → (Ptr → Owner) → ℕ → Ptr → Type 0
Rest m o i p = (l : List Ptr) × Chain m.next p l × Holds o i l

abbrev pub Continues : Shared → (Ptr → Owner) → ℕ → Ptr → Cont → Type 0
Continues m o i p return = Unit
Continues m o i p (walk next visited) =
    (l : List Ptr) × Chain m.next next l × Holds o i l × (has p l ≡ false)

-- A push under way: the thread still holds the node.
abbrev pub Pushes : Shared → (Ptr → Owner) → ℕ → Ptr → Cont → Type 0
Pushes m o i p k = (o p ≡ held i) × (p ≢ null) × Continues m o i p k

-- What a thread's local variables say about shared memory.
abbrev pub Local : Shared → (Ptr → Owner) → ℕ → Pc → Type 0
Local m o i idle = Unit
Local m o i start_pop = Unit
Local m o i (popping curr) = Seen m.head curr
Local m o i (pop_cas curr next) =
    Seen m.head curr
    × (curr.ptr ≢ null)
    × (next.aba ≡ next_aba curr)
    × (curr.aba ≡ m.head.aba → m.next curr.ptr ≡ next.ptr)
Local m o i (popped result) = Unit
Local m o i (start_push k p) = Pushes m o i p k
Local m o i (pushing k p curr) = Seen m.head curr × Pushes m o i p k
Local m o i (push_cas k p curr next) =
    Seen m.head curr
    × Pushes m o i p k
    × (next.aba ≡ next_aba curr)
    × (next.ptr ≡ p)
    × (m.next p ≡ curr.ptr)
Local m o i start_for_each = Unit
Local m o i (grabbing curr) = Seen m.head curr
Local m o i (grab_cas curr next) = Seen m.head curr × (next.aba ≡ next_aba curr) × (next.ptr ≡ null)
Local m o i (walking p visited) = Rest m o i p
Local m o i (walked visited) = Unit

-- The state after `k` steps, with `l` the nodes in the stack.
pub record Inv (k : ℕ) (s : System) (l : List Ptr) : Type 0 where
  pub chain : Chain s.mem.next s.mem.head.ptr l
  pub inside : (p : Ptr) → has p l ≡ true → s.owner p ≡ stacked
  pub all : (p : Ptr) → s.owner p ≡ stacked → has p l ≡ true
  pub tags : s.mem.head.aba ≤ k
  pub local : (i : ℕ) → Local s.mem s.owner i (s.pc i)

-- What a step of another thread leaves of the memory that thread `j` relies on.
pub record Spares (m m' : Shared) (o o' : Ptr → Owner) (j : ℕ) : Type 0 where
  pub head : (m'.head ≡ m.head) ⊎ (m.head.aba < m'.head.aba)
  pub top : m.head.ptr ≢ null → m'.head ≡ m.head → m'.next m.head.ptr ≡ m.next m.head.ptr
  pub owns : (q : Ptr) → o q ≡ held j → o' q ≡ held j
  pub keeps : (q : Ptr) → o q ≡ held j → m'.next q ≡ m.next q

module _ {m m' : Shared} {o o' : Ptr → Owner} {j : ℕ} (f : Spares m m' o o' j) where
  Seen-Spares : (curr : Head) → Seen m.head curr → Seen m'.head curr
  Seen-Spares curr s = elim f.head [
    | inl e ↦ rw e s
    | inr lt ↦ (omega arith, λ e. absurd (omega arith))
  ]

  Rest-Spares : (p : Ptr) (l : List Ptr) → Holds o j l → Chain m.next p l → Chain m'.next p l
  Rest-Spares p l h c = Chain-frame m.next m'.next p l (λ q i. f.keeps q (h q i)) c

  Continues-Spares : (p : Ptr) (k : Cont) → Continues m o j p k → Continues m' o' j p k
  Continues-Spares p return c = tt
  Continues-Spares p (walk next visited) (l, c, h, out) =
      (l, Rest-Spares next l h c, λ q i. f.owns q (h q i), out)

  Pushes-Spares : (p : Ptr) (k : Cont) → Pushes m o j p k → Pushes m' o' j p k
  Pushes-Spares p k (own, ne, c) = (f.owns p own, ne, Continues-Spares p k c)

  top-Spares :
      (curr next : Head)
      → Seen m.head curr
      → curr.ptr ≢ null
      → (curr.aba ≡ m.head.aba → m.next curr.ptr ≡ next.ptr)
      → curr.aba ≡ m'.head.aba
      → m'.next curr.ptr ≡ next.ptr
  top-Spares curr next s ne read e = elim f.head [
    | inl same ↦
        let now : curr.aba ≡ m.head.aba = rw (← same) e in
        let it : curr ≡ m.head = s.1 now in
        let live : m.head.ptr ≢ null = λ z. ne (rw it z) in
        rw it (rw (f.top live same) (rw (← it) (read now)))
    | inr lt ↦ absurd (omega arith)
  ]

  -- A thread that is spared keeps its facts.
  pub Local-Spares : (pc : Pc) → Local m o j pc → Local m' o' j pc
  Local-Spares idle h = tt
  Local-Spares start_pop h = tt
  Local-Spares (popping curr) h = Seen-Spares curr h
  Local-Spares (pop_cas curr next) (s, ne, tag, read) =
      (Seen-Spares curr s, ne, tag, top-Spares curr next s ne read)
  Local-Spares (popped result) h = tt
  Local-Spares (start_push k p) h = Pushes-Spares p k h
  Local-Spares (pushing k p curr) (s, h) = (Seen-Spares curr s, Pushes-Spares p k h)
  Local-Spares (push_cas k p curr next) (s, h, tag, ptr, link) =
      (Seen-Spares curr s, Pushes-Spares p k h, tag, ptr, f.keeps p h.0 ∙ link)
  Local-Spares start_for_each h = tt
  Local-Spares (grabbing curr) h = Seen-Spares curr h
  Local-Spares (grab_cas curr next) (s, tag, ptr) = (Seen-Spares curr s, tag, ptr)
  Local-Spares (walking p visited) (l, c, h) = (l, Rest-Spares p l h c, λ q i. f.owns q (h q i))
  Local-Spares (walked visited) h = tt
