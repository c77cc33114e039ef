-- ===== src/LfStack/System.antt =====
-- Any number of threads that use one stack, interleaved in any order.
use np_alloc.Prelude.{ℕ, ◌==◌, ◌≡◌, ◌≢◌, Bool, List, [], ◌∷◌, Option, none, some, if◌then◌else◌}
use np_alloc.LfStack.{
  Ptr, null, head_t, Shared, update, Pc, idle, start_pop, start_push, start_for_each, return, Event,
  silent, put, took, saw_empty, grabbed, access,
}

-- Who may use a node: nobody yet, the thread that a `pop` or a `for_each` gave it to, or the stack.
pub data Owner : Type 0 where
  outside : Owner
  held : (thread : ℕ) → Owner
  stacked : Owner

pub record System : Type 0 where
  pub mem : Shared
  pub owner : Ptr → Owner
  pub pc : ℕ → Pc

-- What `for_each` takes is the whole stack.
abbrev pub grab : ℕ → Owner → Owner
grab i outside = outside
grab i (held j) = held j
grab i stacked = held i

abbrev pub owned : ℕ → Event → (Ptr → Owner) → Ptr → Owner
owned i silent o = o
owned i (put p) o = update o p stacked
owned i (took p) o = update o p (held i)
owned i saw_empty o = o
owned i grabbed o = λ p. grab i (o p)

-- Calls, and what clients do to nodes. A client pushes only a node that it holds, and writes only
-- to such nodes, but to these as it likes, the `next` field included.
pub data Step (s : System) : Event → System → Type 0 where
  call_pop : (i : ℕ) → s.pc i ≡ idle → Step s silent (record s { pc = update s.pc i start_pop })
  call_push :
      (i : ℕ) (p : Ptr)
      → s.pc i ≡ idle
      → s.owner p ≡ held i
      → p ≢ null
      → Step s silent (record s { pc = update s.pc i (start_push return p) })
  call_for_each :
      (i : ℕ) → s.pc i ≡ idle → Step s silent (record s { pc = update s.pc i start_for_each })
  write :
      (i : ℕ) (p v : Ptr)
      → s.pc i ≡ idle
      → s.owner p ≡ held i
      → Step s silent
          (record s { mem = record { head = s.mem.head; next = update s.mem.next p v } })
  obtain :
      (i : ℕ) (p : Ptr)
      → s.owner p ≡ outside
      → p ≢ null
      → Step s silent (record s { owner = update s.owner p (held i) })
  run :
      (i : ℕ) (lucky : Bool) {m : Shared} {p : Pc} {e : Event}
      → access lucky s.mem (s.pc i) ≡ (m, p, e)
      → Step s e (record { mem = m; owner = owned i e s.owner; pc = update s.pc i p })

abbrev pub init : (Ptr → Ptr) → System
init next = record {
  mem = record { head = head_t 0 null; next = next };
  owner = λ p. outside;
  pc = λ i. idle;
}

-- A run with its events, the latest first.
pub data Trace (next : Ptr → Ptr) : List Event → System → Type 0 where
  start : Trace next [] (init next)
  later :
      {es : List Event} {e : Event} {s t : System}
      → Trace next es s
      → Step s e t
      → Trace next (e ∷ es) t

-- The stack that a user of the class has in mind: what an event makes of a list of nodes, `none`
-- where the event contradicts the list.
unfoldable pub apply : Event → List Ptr → Option (List Ptr)
apply silent l = some l
apply (put p) l = some (p ∷ l)
apply (took p) [] = none
apply (took p) (q ∷ l) = if p == q then some l else none
apply saw_empty [] = some []
apply saw_empty (q ∷ l) = none
apply grabbed l = some []

abbrev pub and_then : Option (List Ptr) → (List Ptr → Option (List Ptr)) → Option (List Ptr)
and_then none f = none
and_then (some l) f = f l

unfoldable pub replay : List Event → Option (List Ptr)
unfolding apply
replay [] = some []
replay (e ∷ es) = and_then (replay es) (apply e)
