-- ===== src/Examples/Stack.antt =====
-- The stack of src/np_lf_stack.h with two threads.
use np_alloc.Prelude.{ℕ, ◌≡◌, ◌≢◌, refl, true, false, List, [], ◌∷◌, some, arith, has}
use np_alloc.LfStack.{
  Ptr, null, head_t, Shared, update, Event, silent, took, put, idle, popped, pop_cas, walked, Pc,
  start_pop, start_push, return, access, exchange, resume, load_event,
}
use np_alloc.LfStack.System.{
  held, System, Step, call_pop, call_push, obtain, run, init, Trace, start, later, replay, owned,
}
use np_alloc.LfStack.Chain.{Chain}
use np_alloc.LfStack.Linear.{linearizable, pop_exclusive}
use np_alloc.LfStack.Alone.{solo-InCall}
use np_alloc.LfStack.Solo.{
  finished, solo, push, pop, for_each, count_free_list, pop-push, for_each-reverse,
}

abbrev no_links : Ptr → Ptr
no_links p = 0

-- Thread 0 gets the node at 64 and pushes it; thread 1 pops it.
abbrev obtained : System → ℕ → Ptr → System
obtained s i p = record s { owner = update s.owner p (held i) }

abbrev at : System → ℕ → Pc → System
at s i p = record s { pc = update s.pc i p }

abbrev s₁ : System
s₁ = obtained (init no_links) 0 64

abbrev s₂ : System
s₂ = at s₁ 0 (start_push return 64)

abbrev ran : System → ℕ → System
unfolding access exchange resume load_event
ran s i =
    let (m, p, e) = access true s.mem (s.pc i) in
    record { mem = m; owner = owned i e s.owner; pc = update s.pc i p }

abbrev s₅ : System
s₅ = ran (ran (ran s₂ 0) 0) 0

abbrev s₆ : System
s₆ = at s₅ 1 start_pop

abbrev s₈ : System
s₈ = ran (ran s₆ 1) 1

abbrev events : List Event
events = silent ∷ silent ∷ silent ∷ put 64 ∷ silent ∷ silent ∷ silent ∷ silent ∷ []

trace : Trace no_links events s₈
unfolding access exchange resume load_event ran
trace =
    later
      (later
        (later
          (later
            (later
              (later
                (later (later start (obtain 0 64 refl (omega arith)))
                  (call_push 0 64 refl refl (omega arith)))
                (run 0 true refl))
              (run 0 true refl))
            (run 0 true refl))
          (call_pop 1 refl))
        (run 1 true refl))
      (run 1 true refl)

linearizable_example :
    (l : List Ptr) × (replay events ≡ some l) × Chain s₈.mem.next s₈.mem.head.ptr l
linearizable_example = linearizable trace (omega arith)

taken : Step s₈ (took 64) (ran s₈ 1)
unfolding access exchange resume load_event ran
taken = run 1 true refl

pop_exclusive_example :
    ((i : ℕ) × ((ran s₈ 1).pc i ≡ popped 64) × ((ran s₈ 1).owner 64 ≡ held i))
    × ((j : ℕ) → s₈.owner 64 ≢ held j)
    × (64 ≢ null)
    × (l : List Ptr) × (has 64 l ≡ false)
    × Chain (ran s₈ 1).mem.next (ran s₈ 1).mem.head.ptr l
pop_exclusive_example = pop_exclusive trace taken (omega arith)

-- A stack of two nodes.
abbrev two : Shared
two = record { head = head_t 7 32; next = update no_links 32 16 }

two-Chain : Chain two.next two.head.ptr (32 ∷ 16 ∷ [])
two-Chain = (refl, (λ z. omega arith), refl, (refl, (λ z. omega arith), refl, refl))

pop-push_example :
    (m' m'' : Shared) × (push two 64 ≡ (m', idle))
    × Chain m'.next m'.head.ptr (64 ∷ 32 ∷ 16 ∷ [])
    × (pop m' ≡ (m'', popped 64))
    × Chain m''.next m''.head.ptr (32 ∷ 16 ∷ [])
pop-push_example = pop-push two 64 (32 ∷ 16 ∷ []) (λ z. omega arith) refl two-Chain

for_each-reverse_example :
    (m' : Shared) × (for_each 12 two ≡ (m', walked (16 ∷ 32 ∷ [])))
    × (count_free_list 12 two ≡ some 2)
    × Chain m'.next m'.head.ptr (16 ∷ 32 ∷ [])
for_each-reverse_example = for_each-reverse 12 two (32 ∷ 16 ∷ []) two-Chain (omega arith)

-- The head that the thread has loaded is out of date.
solo-InCall_example : finished (solo 4 two (pop_cas (head_t 3 48) (head_t 4 0))).1 ≡ true
solo-InCall_example = solo-InCall two (pop_cas (head_t 3 48) (head_t 4 0)) tt
