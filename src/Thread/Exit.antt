-- ===== src/Thread/Exit.antt =====
-- src/np_thread.cpp, `thread_atexit`, the destructor of the key and `thread_test_atexit`, and the
-- threads of src/main.cpp.
use np_alloc.Prelude.{
  ℕ, zero, suc, ◌+◌, ◌<◌, ◌≡◌, refl, ap, Bool, true, false, List, [], ◌∷◌, Option, none, some,
  length, has, arith, if◌then◌else◌,
}
use mathlib.Core.List.{reverse}
use np_alloc.Thread.{CallList, add, add_all, invoke, present, invoke-add_all}

-- `s_tls_key` with `s_key_once`, and `tls_caller`, which is also the key's value in this thread.
pub record Tls : Type 0 where
  pub key_made : Bool
  pub caller : Option CallList

abbrev pub new_thread : (key_made : Bool) → Tls
new_thread k = record { key_made = k; caller = none }

-- `create_tls_key`, which `pthread_once` calls in the first thread only.
abbrev pub create_tls_key : (key_made : Bool) → Bool
create_tls_key key_made = true

-- The caller, which the first call makes.
abbrev pub caller_of : Option CallList → CallList
caller_of none = []
caller_of (some l) = l

unfoldable pub thread_atexit : Tls → Option ℕ → Tls
thread_atexit t f = record {
  key_made = create_tls_key t.key_made;
  caller = some (add (caller_of t.caller) f);
}

-- `~thread_atexit_caller`
unfoldable pub destroy_caller :
    (adds : ℕ → List (Option ℕ)) → (fuel : ℕ) → CallList → Option (List ℕ)
destroy_caller adds fuel l = invoke adds fuel l

-- `tls_destructor`, which pthread calls for a value of the key that is not null.
unfoldable pub tls_destructor : (adds : ℕ → List (Option ℕ)) → (fuel : ℕ) → Tls → Option (List ℕ)
tls_destructor adds fuel t = elim t.caller [ none ↦ some [] | some l ↦ destroy_caller adds fuel l ]

-- The life of a thread that registers `fs`: the callbacks that run at its end.
unfoldable pub register : Tls → List (Option ℕ) → Tls
register t [] = t
register t (f ∷ fs) = register (thread_atexit t f) fs

unfoldable pub run_thread :
    (adds : ℕ → List (Option ℕ)) (fuel : ℕ) (key_made : Bool) → List (Option ℕ) → Option (List ℕ)
run_thread adds fuel k fs = tls_destructor adds fuel (register (new_thread k) fs)

register_lem :
    (t : Tls) (fs : List (Option ℕ))
    → (l : CallList) → t.caller ≡ some l
    → (register t fs).caller ≡ some (add_all l fs)
unfolding register thread_atexit add_all
register_lem t [] l e = e
register_lem t (f ∷ fs) l e =
    register_lem (thread_atexit t f) fs (add l f) (ap (λ c. some (add (caller_of c) f)) e)

-- A thread whose callbacks register no others runs each of them once at its end, the latest
-- registration first, whether or not another thread has made the key; empty functions are skipped.
pub run_thread-reverse :
    (adds : ℕ → List (Option ℕ)) (fuel : ℕ) (key_made : Bool) (fs : List (Option ℕ))
    → ((f : ℕ) → adds f ≡ [])
    → length (present fs) < suc fuel
    → run_thread adds fuel key_made fs ≡ some (reverse (present fs))
unfolding run_thread tls_destructor destroy_caller
run_thread-reverse adds fuel k [] quiet enough = unfold register in refl
run_thread-reverse adds fuel k (f ∷ fs) quiet enough =
    let e : (register (new_thread k) (f ∷ fs)).caller ≡ some (add_all [] (f ∷ fs)) =
      unfold register thread_atexit add_all in
      register_lem (thread_atexit (new_thread k) f) fs (add [] f) refl in
    rw e (invoke-add_all adds fuel (f ∷ fs) quiet enough)

-- `thread_test_atexit`: the callback 0 of one thread sets the flag, which the exchange after the
-- join finds set.
unfoldable pub thread_test_atexit : (adds : ℕ → List (Option ℕ)) → (key_made : Bool) → Option Bool
thread_test_atexit adds k = elim (run_thread adds 1 k (some 0 ∷ [])) [
  | none ↦ none
  | some called ↦ if has 0 called then some true else some false
]

-- The threads of `_test`: each registers one callback, which counts.
unfoldable pub deleted_count :
    (adds : ℕ → List (Option ℕ)) → (threads : ℕ) → (key_made : Bool) → Option ℕ
deleted_count adds zero k = some 0
deleted_count adds (suc n) k =
    let rest = deleted_count adds n true in
    elim (run_thread adds 1 k (some 0 ∷ [])) [
      | none ↦ none
      | some called ↦ elim rest [ none ↦ none | some c ↦ some (length called + c) ]
    ]

flag_set :
    (adds : ℕ → List (Option ℕ)) (k : Bool)
    → ((f : ℕ) → adds f ≡ [])
    → thread_test_atexit adds k ≡ some true
unfolding thread_test_atexit
flag_set adds k quiet =
    rw (thread_test_atexit, run_thread-reverse adds 1 k (some 0 ∷ []) quiet (omega arith)) refl

deleted_count_all :
    (adds : ℕ → List (Option ℕ)) (n : ℕ) (k : Bool)
    → ((f : ℕ) → adds f ≡ [])
    → deleted_count adds n k ≡ some n
unfolding deleted_count
deleted_count_all adds zero k quiet = refl
deleted_count_all adds (suc n) k quiet =
    rw
      (
        run_thread-reverse adds 1 k (some 0 ∷ []) quiet (omega arith),
        deleted_count_all adds n true quiet,
        deleted_count,
      )
      (ap some (omega arith))

-- `thread_test_atexit` returns true, and the threads of `_test` delete one object each.
pub deleted_count_lem :
    (adds : ℕ → List (Option ℕ)) (n : ℕ) (k : Bool)
    → ((f : ℕ) → adds f ≡ [])
    → (thread_test_atexit adds k ≡ some true) × (deleted_count adds n k ≡ some n)
deleted_count_lem adds n k quiet = (flag_set adds k quiet, deleted_count_all adds n k quiet)
