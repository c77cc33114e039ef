-- ===== src/LfStack/Alone.antt =====
-- A thread that is left to run alone in the middle of a call.
use np_alloc.Prelude.{◌≡◌, true, arith}
use np_alloc.LfStack.{
  Shared, Pc, idle, start_pop, popping, pop_cas, popped, start_push, pushing, push_cas, return,
  walk, start_for_each, grabbing, grab_cas, walking, walked, access, exchange, resume,
}
use np_alloc.LfStack.Solo.{finished, solo}

-- The thread is in a call of `pop` or of `push`.
abbrev pub InCall : Pc → Type 0
InCall start_pop = Unit
InCall (popping curr) = Unit
InCall (pop_cas curr next) = Unit
InCall (start_push return ptr) = Unit
InCall (pushing return ptr curr) = Unit
InCall (push_cas return ptr curr next) = Unit
InCall _ = ⊥

-- Whatever other threads have done to the stack since a thread has begun a `pop` or a `push`, and
-- wherever the thread stands in it: if it runs alone from there, and no exchange fails for no
-- reason, its call returns after four accesses at most.
pub solo-InCall : (m : Shared) (p : Pc) → InCall p → finished (solo 4 m p).1 ≡ true
unfolding solo access exchange resume
solo-InCall m start_pop h = ground arith
solo-InCall m (popping curr) h = ground arith
solo-InCall m (pop_cas curr next) h = ground arith
solo-InCall m (start_push return ptr) h = ground arith
solo-InCall m (pushing return ptr curr) h = ground arith
solo-InCall m (push_cas return ptr curr next) h = ground arith
solo-InCall m idle h = absurd h
solo-InCall m (popped result) h = absurd h
solo-InCall m (start_push (walk next visited) ptr) h = absurd h
solo-InCall m (pushing (walk next visited) ptr curr) h = absurd h
solo-InCall m (push_cas (walk rest visited) ptr curr next) h = absurd h
solo-InCall m start_for_each h = absurd h
solo-InCall m (grabbing curr) h = absurd h
solo-InCall m (grab_cas curr next) h = absurd h
solo-InCall m (walking ptr visited) h = absurd h
solo-InCall m (walked visited) h = absurd h
