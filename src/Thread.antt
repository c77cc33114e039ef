-- ===== src/Thread.antt =====
-- src/np_thread.cpp: the callbacks that run when a thread ends. A callback is named by a number;
-- `none` is an empty function. `adds` says which callbacks a callback registers while it runs.
pub mod Exit
pub mod Fls
use np_alloc.Prelude.{
  length-reverse_aux, ℕ, zero, suc, ◌<◌, ◌≡◌, refl, List, [], ◌∷◌, Option, none, some, length,
  arith,
}
use mathlib.Core.List.{reverse, reverse_aux}

-- `call_list_`, the latest callback first.
abbrev pub CallList : Type 0
CallList = List ℕ

-- `add`
unfoldable pub add : CallList → Option ℕ → CallList
add l none = l
add l (some f) = f ∷ l

unfoldable pub add_all : CallList → List (Option ℕ) → CallList
unfolding add
add_all l [] = l
add_all l (f ∷ fs) = add_all (add l f) fs

-- `invoke`, with the callbacks that have run, in their order; `none` where it has not ended after
-- `fuel` callbacks.
unfoldable pub invoke : (adds : ℕ → List (Option ℕ)) → (fuel : ℕ) → CallList → Option (List ℕ)
invoke adds fuel [] = some []
invoke adds zero (f ∷ l) = none
invoke adds (suc fuel) (f ∷ l) =
    let rest = invoke adds fuel (add_all l (adds f)) in
    elim rest [ none ↦ none | some called ↦ some (f ∷ called) ]

-- The callbacks that are no empty functions.
abbrev pub present : List (Option ℕ) → List ℕ
present [] = []
present (none ∷ fs) = present fs
present (some f ∷ fs) = f ∷ present fs

add_all_lem : (l : CallList) (fs : List (Option ℕ)) → add_all l fs ≡ reverse_aux (present fs) l
unfolding add_all add
add_all_lem l [] = refl
add_all_lem l (none ∷ fs) = add_all_lem l fs
add_all_lem l (some f ∷ fs) = add_all_lem (f ∷ l) fs

-- What `invoke` has called: `f` after the callbacks `called`, with `l` still to be called.
invoke_step :
    (adds : ℕ → List (Option ℕ)) (fuel : ℕ) (f : ℕ) (l : CallList) (called : List ℕ)
    → invoke adds fuel (add_all l (adds f)) ≡ some called
    → invoke adds (suc fuel) (f ∷ l) ≡ some (f ∷ called)
unfolding invoke
invoke_step adds fuel f l called e = rw (e, invoke) refl

invoke_quiet :
    (adds : ℕ → List (Option ℕ)) (fuel : ℕ) (l : CallList)
    → ((f : ℕ) → adds f ≡ [])
    → length l < suc fuel
    → invoke adds fuel l ≡ some l
unfolding invoke add_all
invoke_quiet adds fuel [] quiet enough = refl
invoke_quiet adds zero (f ∷ l) quiet enough = absurd (omega arith)
invoke_quiet adds (suc fuel) (f ∷ l) quiet enough =
    invoke_step adds fuel f l l (rw (quiet f) (invoke_quiet adds fuel l quiet (omega arith)))

-- Callbacks that register no others run once each, the latest registration first, and empty
-- functions are skipped; fuel for each of them is enough.
pub invoke-add_all :
    (adds : ℕ → List (Option ℕ)) (fuel : ℕ) (fs : List (Option ℕ))
    → ((f : ℕ) → adds f ≡ [])
    → length (present fs) < suc fuel
    → invoke adds fuel (add_all [] fs) ≡ some (reverse (present fs))
invoke-add_all adds fuel fs quiet enough = rw (add_all_lem [] fs) (
    invoke_quiet adds fuel (reverse (present fs)) quiet
      (omega (arith, length-reverse_aux (present fs) [])))
