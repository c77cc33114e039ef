-- ===== src/LfStack.antt =====
-- src/np_lf_stack.h: the lock-free stack. One thread at a time makes one access to shared memory:
-- a load of `head_`, a read or a write of a node's `next`, or a compare-exchange. Accesses are
-- taken to be sequentially consistent.
pub mod System
pub mod Chain
pub mod Invariant
pub mod Moves
pub mod Accesses
pub mod Linear
pub mod Solo
pub mod Report
pub mod Alone
use np_alloc.Prelude.{ℕ, ◌+◌, ◌%◌, ◌^◌, ◌==◌, Bool, true, false, ◌&&◌, List, [], ◌∷◌, if◌then◌else◌}

-- The address of a node; 0 is `nullptr`.
abbrev pub Ptr : Type 0
Ptr = ℕ

abbrev pub null : Ptr
null = 0

-- `head_t`. `aba` is a `uintptr_t` of 64 bits.
pub record Head : Type 0 where
  pub aba : ℕ
  pub ptr : Ptr

abbrev pub head_t : ℕ → Ptr → Head
head_t a p = record { aba = a; ptr = p }

-- `head_` and the `next` field of every node. The memory of a node is never unmapped, so that a
-- read of `next` gives some value also where the node has left the stack.
pub record Shared : Type 0 where
  pub head : Head
  pub next : Ptr → Ptr

abbrev pub update {ℓ} : {A : Type ℓ} → (ℕ → A) → ℕ → A → ℕ → A
update f i a j = if i == j then a else f j

abbrev pub next_aba : Head → ℕ
next_aba h = (h.aba + 1) % 2 ^ 64

-- Where `push` goes on when it is done: back to the caller, or to the loop of `for_each`, with its
-- variable `next` and the nodes that `fun` has been called on, the latest first.
pub data Cont : Type 0 where
  return : Cont
  walk : (next : Ptr) (visited : List Ptr) → Cont

-- Where a thread stands, with its local variables.
pub data Pc : Type 0 where
  idle : Pc
  start_pop : Pc  -- before the load of `head_`
  popping : (curr : Head) → Pc  -- top of the loop of `pop`
  pop_cas : (curr next : Head) → Pc  -- before the compare-exchange
  popped : (result : Ptr) → Pc
  start_push : (k : Cont) (ptr : Ptr) → Pc
  pushing : (k : Cont) (ptr : Ptr) (curr : Head) → Pc
  push_cas : (k : Cont) (ptr : Ptr) (curr next : Head) → Pc
  start_for_each : Pc
  grabbing : (curr : Head) → Pc
  grab_cas : (curr next : Head) → Pc
  walking : (ptr : Ptr) (visited : List Ptr) → Pc  -- top of `while (ptr)`
  walked : (visited : List Ptr) → Pc

-- What an access does to the stack as its users see it.
pub data Event : Type 0 where
  silent : Event
  put : (p : Ptr) → Event
  took : (p : Ptr) → Event
  saw_empty : Event
  grabbed : Event

abbrev pub head_eq : Head → Head → Bool
head_eq a b = (a.aba == b.aba) && (a.ptr == b.ptr)

-- A load of `head_` by `pop` or `for_each` decides whether the stack counts as empty.
unfoldable pub load_event : Shared → Event
load_event m = if m.head.ptr == null then saw_empty else silent

unfoldable pub resume : Cont → Pc
resume return = idle
resume (walk next visited) = walking next visited

-- `head_.compare_exchange_weak(curr, next)`: may fail though the values agree (`lucky` is false);
-- when it fails, `curr` becomes the value of `head_` and the loop begins again.
unfoldable pub exchange :
    (lucky : Bool)
    → Shared
    → (curr next : Head) → (won : Pc) → Event
    → (lost : Pc) → Event
    → Shared × Pc × Event
exchange lucky m curr next won e lost f =
    if lucky && head_eq m.head curr then (record m { head = next }, won, e) else (m, lost, f)

-- One access of one thread.
unfoldable pub access : (lucky : Bool) → Shared → Pc → Shared × Pc × Event
unfolding load_event resume exchange
access lucky m idle = (m, idle, silent)
access lucky m start_pop = (m, popping m.head, load_event m)
access lucky m (popping curr) =
    if curr.ptr == null
    then (m, popped curr.ptr, silent)
    else (m, pop_cas curr (head_t (next_aba curr) (m.next curr.ptr)), silent)
access lucky m (pop_cas curr next) =
    exchange lucky m curr next (popped curr.ptr) (took curr.ptr) (popping m.head) (load_event m)
access lucky m (popped result) = (m, idle, silent)
access lucky m (start_push k ptr) = (m, pushing k ptr m.head, silent)
access lucky m (pushing k ptr curr) = (
  record m { next = update m.next ptr curr.ptr },
  push_cas k ptr curr (head_t (next_aba curr) ptr),
  silent,
)
access lucky m (push_cas k ptr curr next) =
    exchange lucky m curr next (resume k) (put ptr) (pushing k ptr m.head) silent
access lucky m start_for_each = (m, grabbing m.head, load_event m)
access lucky m (grabbing curr) =
    if curr.ptr == null
    then (m, walking curr.ptr [], silent)
    else (m, grab_cas curr (head_t (next_aba curr) null), silent)
access lucky m (grab_cas curr next) =
    exchange lucky m curr next (walking curr.ptr []) grabbed (grabbing m.head) (load_event m)
access lucky m (walking ptr visited) =
    if ptr == null
    then (m, walked visited, silent)
    else (m, start_push (walk (m.next ptr) (ptr ∷ visited)) ptr, silent)
access lucky m (walked visited) = (m, idle, silent)
