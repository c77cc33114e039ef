-- ===== src/LfStack/Linear.antt =====
-- The stack is linearizable: what every run does to shared memory is what its events, one after
-- another, do to a list.
use np_alloc.Prelude.{
  ℕ, suc, ◌^◌, ◌<◌, ◌≡◌, ◌≢◌, refl, subst, false, List, [], ◌∷◌, some, arith, has, length, Bool,
}
use np_alloc.LfStack.{
  Ptr, null, Shared, Pc, idle, start_pop, popping, pop_cas, popped, start_push, pushing, push_cas,
  start_for_each, grabbing, grab_cas, walking, walked, Event, silent, took, return, access,
  exchange, load_event, resume,
}
use np_alloc.LfStack.System.{
  held, stacked, System, Step, call_pop, call_push, call_for_each, write, obtain, run, init, Trace,
  start, later, apply, replay,
}
use np_alloc.LfStack.Chain.{Chain}
use np_alloc.LfStack.Invariant.{Inv}
use np_alloc.LfStack.Moves.{quiet, wrote, obtained}
use np_alloc.LfStack.Accesses.{Kept, Kept-access}

-- A step that is no access of the program.
unmoved :
    {k : ℕ} {t : System} (l : List Ptr)
    → Inv (suc k) t l
    → (l' : List Ptr) × (apply silent l ≡ some l') × Inv (suc k) t l'
unfolding apply
unmoved l inv = (l, refl, inv)

pub Step-Inv :
    {k : ℕ} {s : System} {e : Event} {t : System} {l : List Ptr}
    → Inv k s l
    → Step s e t
    → suc k < 2 ^ 64
    → (l' : List Ptr) × (apply e l ≡ some l') × Inv (suc k) t l'
Step-Inv {l} inv (call_pop i at) small = unmoved l (quiet inv i _ tt)
Step-Inv {l} inv (call_push i p at own live) small =
    unmoved l (quiet inv i (start_push return p) (own, live, tt))
Step-Inv {l} inv (call_for_each i at) small = unmoved l (quiet inv i _ tt)
Step-Inv {l} inv (write i p v at own) small = unmoved l (wrote inv i p v at own)
Step-Inv {l} inv (obtain i p out live) small = unmoved l (obtained inv i p out)
Step-Inv {k} {s} {l} inv (run i lucky e) small =
    subst (Kept k s.owner s.pc l i) e (Kept-access inv i lucky (s.pc i) (inv.local i) small)

init-Inv : (next : Ptr → Ptr) → Inv 0 (init next) []
init-Inv next = record {
  chain = refl;
  inside = λ p m. cc;
  all = λ p e. cc;
  tags = omega arith;
  local = λ i. tt;
}

pub Trace-Inv :
    {next : Ptr → Ptr} {es : List Event} {s : System}
    → Trace next es s
    → length es < 2 ^ 64
    → (l : List Ptr) × (replay es ≡ some l) × Inv (length es) s l
unfolding replay
Trace-Inv {next} start small = ([], refl, init-Inv next)
Trace-Inv (later {e} r st) small =
    let (l, before, inv) = Trace-Inv r (omega arith) in
    let (l', now, inv') = Step-Inv inv st small in (l', rw before now, inv')

-- In a run of fewer than 2 ^ 64 steps of any number of threads, from the empty stack, the events
-- (each the effect of one access, in the order of the accesses) are a legal history of a sequential
-- stack, and the nodes that `head_` leads to are, in order, the list that this history ends with.
pub linearizable :
    {next : Ptr → Ptr} {es : List Event} {s : System}
    → Trace next es s
    → length es < 2 ^ 64
    → (l : List Ptr) × (replay es ≡ some l) × Chain s.mem.next s.mem.head.ptr l
linearizable r small = let (l, history, inv) = Trace-Inv r small in (l, history, inv.chain)

took_cons : (p : Ptr) (l : List Ptr) {l' : List Ptr} → apply (took p) l ≡ some l' → l ≡ p ∷ l'
unfolding apply
took_cons p [] e = cc
took_cons p (q ∷ l) e = ground arith

access-took :
    (lucky : Bool) (m m' : Shared) (pc pc' : Pc) (q : Ptr)
    → access lucky m pc ≡ (m', pc', took q)
    → pc' ≡ popped q
unfolding access exchange load_event resume
access-took lucky m m' idle pc' q e = cc
access-took lucky m m' start_pop pc' q e = ground (arith, e)
access-took lucky m m' (popping curr) pc' q e = ground (arith, e)
access-took lucky m m' (pop_cas curr next) pc' q e = ground (arith, e)
access-took lucky m m' (popped result) pc' q e = cc
access-took lucky m m' (start_push k ptr) pc' q e = cc
access-took lucky m m' (pushing k ptr curr) pc' q e = cc
access-took lucky m m' (push_cas k ptr curr next) pc' q e = ground (arith, e)
access-took lucky m m' start_for_each pc' q e = ground (arith, e)
access-took lucky m m' (grabbing curr) pc' q e = ground (arith, e)
access-took lucky m m' (grab_cas curr next) pc' q e = ground (arith, e)
access-took lucky m m' (walking ptr visited) pc' q e = ground (arith, e)
access-took lucky m m' (walked visited) pc' q e = cc

-- The thread that takes a node.
taker :
    {s : System} {e : Event} {t : System} (p : Ptr)
    → Step s e t
    → e ≡ took p
    → (i : ℕ) × (t.pc i ≡ popped p) × (t.owner p ≡ held i)
taker p (call_pop i at) h = cc
taker p (call_push i q at own live) h = cc
taker p (call_for_each i at) h = cc
taker p (write i q v at own) h = cc
taker p (obtain i q out live) h = cc
taker {s} p (run i lucky {m} {p = pc} {e} acc) h =
    let to = access-took lucky s.mem m (s.pc i) pc p (rw acc (rw h refl)) in
    (i, ground (arith, to), rw h (ground arith))

-- In a run of fewer than 2 ^ 64 steps, the node that a `pop` takes is what that call returns, to a
-- thread that holds the node from then on. It was held by no thread and is not null, and after the
-- `pop` it is not among the nodes that `head_` leads to.
pub pop_exclusive :
    {next : Ptr → Ptr} {es : List Event} {s t : System} {p : Ptr}
    → Trace next es s
    → Step s (took p) t
    → suc (length es) < 2 ^ 64
    → ((i : ℕ) × (t.pc i ≡ popped p) × (t.owner p ≡ held i))
      × ((j : ℕ) → s.owner p ≢ held j)
      × (p ≢ null)
      × (l : List Ptr) × (has p l ≡ false)
      × Chain t.mem.next t.mem.head.ptr l
pop_exclusive {s} {p} r st small =
    let (l, before, inv) = Trace-Inv r (omega arith) in
    let (l', now, inv') = Step-Inv inv st small in
    let cells : l ≡ p ∷ l' = took_cons p l now in
    let c : Chain s.mem.next s.mem.head.ptr (p ∷ l') =
      subst (λ x. Chain s.mem.next s.mem.head.ptr x) cells inv.chain in
    let mine : s.owner p ≡ stacked = inv.inside p (rw cells (ground arith)) in
    (taker p st refl, λ j e. ground arith, c.1, l', c.2, inv'.chain)
