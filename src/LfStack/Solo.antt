-- ===== src/LfStack/Solo.antt =====
-- One thread that runs while the others pause: every call returns, after a number of accesses that
-- is known, with the result that a sequential stack gives.
use np_alloc.Prelude.{
  Option, none, some, ◌<◌, ◌≤◌, ◌∙◌, ap, sym, length-reverse_aux, ℕ, zero, suc, ◌+◌, ◌*◌, ◌≡◌, ◌≢◌,
  refl, Bool, true, false, List, [], ◌∷◌, arith, length, has,
}
use mathlib.Core.List.{reverse, reverse_aux}
use np_alloc.LfStack.{
  Ptr, null, head_t, Shared, next_aba, update, Pc, idle, start_pop, popped, start_push,
  start_for_each, walking, walked, return, access, exchange, resume,
}
use np_alloc.LfStack.Chain.{Chain, Chain-update}

abbrev pub finished : Pc → Bool
finished idle = true
finished (popped result) = true
finished (walked visited) = true
finished _ = false

-- `fuel` accesses at most, with no spurious failure.
unfoldable pub solo : (fuel : ℕ) → Shared → Pc → Shared × Pc
solo zero m p = (m, p)
solo (suc fuel) m p = elim (finished p) [
  | true ↦ (m, p)
  | false ↦ let (m', p', e) = access true m p in solo fuel m' p'
]

-- `push`, `pop` and `for_each` as calls.
pub push : Shared → Ptr → Shared × Pc
unfolding solo access exchange resume
push m p = solo 3 m (start_push return p)

pub pop : Shared → Shared × Pc
unfolding solo access exchange
pop m = solo 3 m start_pop

-- `fuel` accesses are enough where `for_each-reverse` says so.
unfoldable pub for_each : (fuel : ℕ) → Shared → Shared × Pc
unfolding solo access exchange resume
for_each fuel m = solo fuel m start_for_each

visits : Pc → Option ℕ
visits (walked visited) = some (length visited)
visits _ = none

-- `fun` adds one for each node.
pub count_free_list : (fuel : ℕ) → Shared → Option ℕ
unfolding for_each visits
count_free_list fuel m = visits (for_each fuel m).1

-- Memory after a `push`, and after a `pop` of the node at the head.
abbrev pub with : Shared → Ptr → Shared
with m p = record { head = head_t (next_aba m.head) p; next = update m.next p m.head.ptr }

abbrev pub without : Shared → Shared
without m = record m { head = head_t (next_aba m.head) (m.next m.head.ptr) }

pub push_lem : (m : Shared) (p : Ptr) → push m p ≡ (with m p, idle)
unfolding push
push_lem m p = ground arith

pub pop_lem : (m : Shared) → m.head.ptr ≢ null → pop m ≡ (without m, popped m.head.ptr)
unfolding pop
pop_lem m live = ground arith

pub pop_empty : (m : Shared) → m.head.ptr ≡ null → pop m ≡ (m, popped m.head.ptr)
unfolding pop
pop_empty m e = ground arith

with-Chain :
    (m : Shared) (p : Ptr) (l : List Ptr)
    → p ≢ null
    → has p l ≡ false
    → Chain m.next m.head.ptr l
    → Chain (with m p).next p (p ∷ l)
with-Chain m p l live out c =
    (refl, live, out, rw (here p m.head.ptr) (Chain-update m.next p m.head.ptr m.head.ptr l out c))
  where
    here : (q v : Ptr) → update m.next q v q ≡ v
    here q v = ground arith

-- `push` puts a node that is not in the stack in front of the others; a `pop` that follows returns
-- it and leaves the stack as it was, also where the stack was empty before.
pub pop-push :
    (m : Shared) (p : Ptr) (l : List Ptr)
    → p ≢ null
    → has p l ≡ false
    → Chain m.next m.head.ptr l
    → (m' m'' : Shared) × (push m p ≡ (m', idle))
      × Chain m'.next m'.head.ptr (p ∷ l)
      × (pop m' ≡ (m'', popped p))
      × Chain m''.next m''.head.ptr l
pop-push m p l live out c =
    let pushed = with-Chain m p l live out c in
    (with m p, without (with m p), push_lem m p, pushed, pop_lem (with m p) live, pushed.3)

-- One round of the loop of `for_each`.
walk_step :
    (fuel : ℕ) (m : Shared) (p : Ptr) (visited : List Ptr)
    → p ≢ null
    → solo (suc (suc (suc (suc fuel)))) m (walking p visited)
      ≡ solo fuel (with m p) (walking (m.next p) (p ∷ visited))
unfolding solo access exchange resume
walk_step fuel m p visited live = ground arith

walk_end :
    (fuel : ℕ) (m : Shared) (visited : List Ptr)
    → solo (suc fuel) m (walking null visited) ≡ (m, walked visited)
unfolding solo access
walk_end zero m visited = refl
walk_end (suc fuel) m visited = refl

-- The loop of `for_each` from the node `p`, with `l` still to be visited and `done` back in the
-- stack: four accesses for each node, and one for the end.
walk_lem :
    (fuel : ℕ) (m : Shared) (p : Ptr) (l done : List Ptr)
    → Chain m.next p l
    → Chain m.next m.head.ptr done
    → ((q : Ptr) → has q l ≡ true → has q done ≡ false)
    → 4 * length l < fuel
    → (m' : Shared) × (solo fuel m (walking p done) ≡ (m', walked (reverse_aux l done)))
      × Chain m'.next m'.head.ptr (reverse_aux l done)
walk_lem zero m p l done c d apart enough = absurd (omega arith)
walk_lem (suc fuel) m p [] done c d apart enough = (m, rw c (walk_end fuel m done), d)
walk_lem (suc zero) m p (q ∷ l) done c d apart enough = absurd (omega arith)
walk_lem (suc (suc zero)) m p (q ∷ l) done c d apart enough = absurd (omega arith)
walk_lem (suc (suc (suc zero))) m p (q ∷ l) done c d apart enough = absurd (omega arith)
walk_lem (suc (suc (suc (suc fuel)))) m p (q ∷ l) done c d apart enough =
    let out : has q done ≡ false = apart q (ground arith) in
    let (m', ran, chain) =
      walk_lem fuel (with m q) (m.next q) l (q ∷ done)
        (Chain-update m.next q m.head.ptr (m.next q) l c.2 c.3) (with-Chain m q done c.1 out d)
        (λ r i. ground (arith, apart r, c.2)) (omega arith) in
    (m', rw c.0 (walk_step fuel m q done c.1 ∙ ran), chain)

start_walk :
    (fuel : ℕ) (m : Shared)
    → m.head.ptr ≢ null
    → solo (suc (suc (suc fuel))) m start_for_each
      ≡ solo fuel (record m { head = head_t (next_aba m.head) null }) (walking m.head.ptr [])
unfolding solo access exchange
start_walk fuel m live = ground arith

start_empty :
    (fuel : ℕ) (m : Shared)
    → m.head.ptr ≡ null
    → solo (suc (suc (suc fuel))) m start_for_each ≡ (m, walked [])
unfolding solo access
start_empty zero m e = ground arith
start_empty (suc fuel) m e = ground arith

for_each_run :
    (fuel : ℕ) (m : Shared) (l : List Ptr)
    → Chain m.next m.head.ptr l
    → 4 * length l + 4 ≤ fuel
    → (m' : Shared) × (solo fuel m start_for_each ≡ (m', walked (reverse l)))
      × Chain m'.next m'.head.ptr (reverse l)
for_each_run zero m l c enough = absurd (omega arith)
for_each_run (suc zero) m l c enough = absurd (omega arith)
for_each_run (suc (suc zero)) m l c enough = absurd (omega arith)
for_each_run (suc (suc (suc fuel))) m [] c enough = (m, start_empty fuel m c, c)
for_each_run (suc (suc (suc fuel))) m (q ∷ l) c enough =
    let live : m.head.ptr ≢ null = λ z. c.1 (sym c.0 ∙ z) in
    let (m', ran, chain) =
      walk_lem fuel (record m { head = head_t (next_aba m.head) null }) m.head.ptr (q ∷ l) [] c refl
        (λ r i. refl) (omega arith) in
    (m', start_walk fuel m live ∙ ran, chain)

-- `for_each`, run alone on a stack that holds the nodes `l`, ends after `4 * n + 4` accesses at
-- most for `n` nodes: it calls `fun` once on each node, from the top down, so that
-- `count_free_list` returns `n`, and it leaves the same nodes in the stack in reverse order.
pub for_each-reverse :
    (fuel : ℕ) (m : Shared) (l : List Ptr)
    → Chain m.next m.head.ptr l
    → 4 * length l + 4 ≤ fuel
    → (m' : Shared) × (for_each fuel m ≡ (m', walked (reverse l)))
      × (count_free_list fuel m ≡ some (length l))
      × Chain m'.next m'.head.ptr (reverse l)
unfolding for_each count_free_list
for_each-reverse fuel m l c enough =
    let (m', ran, chain) = for_each_run fuel m l c enough in
    (m', ran, rw ran (ap some (omega (arith, length-reverse_aux l []))), chain)
