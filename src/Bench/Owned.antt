-- ===== src/Bench/Owned.antt =====
-- The workload frees what it allocates.
use np_alloc.Prelude.{
  ℕ, zero, suc, ◌+◌, ◌≡◌, ◌==◌, ltb, refl, sym, ap, subst, ◌∙◌, Bool, true, false, List, [], ◌∷◌,
  ◌++◌, length, Bool-cases, inl, inr, ◌⊎◌, ==_iff,
}
use mathlib.Core.List.{reverse, reverse_aux, reverse-reverse}
use np_alloc.Bench.{
  Api, Worker, new_worker, Dist, turn, turns, free_all, body, run_single, Task, filling_loop,
  freeing, task_step, step_at, interleave, finish, finish_all, start_threads, run_multi, TestCase,
  tests, run_test, run_tests, main,
}

-- A way to say which blocks the callers of an allocator own, listed in any order: `alloc` gives a
-- block, and any block that is owned can be freed, and is then owned no more.
pub record Ledger (api : Api) : Type 1 where
  pub Owns : api.State → List ℕ → Type 0
  pub given :
      (s : api.State) (l r : List ℕ) (sz : ℕ)
      → Owns s (l ++ r)
      → Owns (api.alloc s sz).1 (l ++ (api.alloc s sz).0 ∷ r)
  pub taken :
      (s : api.State) (l r : List ℕ) (p : ℕ) → Owns s (l ++ p ∷ r) → Owns (api.free s p) (l ++ r)

reverse_aux-append : (l acc r : List ℕ) → reverse_aux l (acc ++ r) ≡ reverse_aux l acc ++ r
reverse_aux-append [] acc r = refl
reverse_aux-append (x ∷ l) acc r = reverse_aux-append l (x ∷ acc) r

reverse_cons-append : (p : ℕ) (ps r : List ℕ) → reverse (p ∷ ps) ++ r ≡ reverse ps ++ p ∷ r
reverse_cons-append p ps r =
    sym (reverse_aux-append ps (p ∷ []) r) ∙ reverse_aux-append ps [] (p ∷ r)

append_assoc : (l k r : List ℕ) → (l ++ k) ++ r ≡ l ++ (k ++ r)
append_assoc [] k r = refl
append_assoc (x ∷ l) k r = ap (λ y. x ∷ y) (append_assoc l k r)

module _ (api : Api) (ledger : Ledger api) where
  open ledger use {Owns, given, taken}

  -- The block `p`, behind the blocks of `l` in reverse, is freed.
  taken_behind :
      (s : api.State) (l k r : List ℕ) (p : ℕ)
      → Owns s (l ++ (k ++ p ∷ r))
      → Owns (api.free s p) (l ++ (k ++ r))
  taken_behind s l k r p own =
      subst (Owns (api.free s p)) (append_assoc l k r)
        (taken s (l ++ k) r p (subst (Owns s) (sym (append_assoc l k (p ∷ r))) own))

  module _ (sizes : ℕ → ℕ) (max_alloc : ℕ) where
    -- One turn of a worker, next to the blocks `l` and `r` of others.
    turn-Owns :
        (s : api.State) (filling : Bool) (allocs : List ℕ) (drawn : ℕ) (l r : List ℕ)
        → Owns s (l ++ (allocs ++ r))
        → Owns
            (turn api sizes max_alloc s filling allocs drawn).0
            (l ++ ((turn api sizes max_alloc s filling allocs drawn).1.allocs ++ r))
    unfolding turn
    turn-Owns s true allocs drawn l r own = elim (Bool-cases (ltb (length allocs) max_alloc)) [
      | inl lt ↦ rw lt (given s l (allocs ++ r) (sizes drawn) own)
      | inr ge ↦ rw ge own
    ]
    turn-Owns s false [] drawn l r own = own
    turn-Owns s false (p ∷ allocs) drawn l r own = taken s l (allocs ++ r) p own

    turns-Owns :
        (n : ℕ) (s : api.State) (b : Worker) (l r : List ℕ)
        → Owns s (l ++ (b.allocs ++ r))
        → Owns
            (turns api sizes max_alloc n s b).0
            (l ++ ((turns api sizes max_alloc n s b).1.allocs ++ r))
    unfolding turns
    turns-Owns zero s b l r own = own
    turns-Owns (suc n) s b l r own =
        let next = turn api sizes max_alloc s b.filling b.allocs b.drawn in
        turns-Owns n next.0 next.1 l r (turn-Owns s b.filling b.allocs b.drawn l r own)

    -- The list of the blocks has its back first, and they are freed from the front.
    free_all-Owns :
        (ps : List ℕ) (s : api.State) (l r : List ℕ)
        → Owns s (l ++ (reverse ps ++ r))
        → Owns (free_all api sizes max_alloc ps s) (l ++ r)
    unfolding free_all
    free_all-Owns [] s l r own = own
    free_all-Owns (p ∷ ps) s l r own = free_all-Owns ps (api.free s p) l r (
        taken_behind s l (reverse ps) r p
          (subst (λ k. Owns s (l ++ k)) (reverse_cons-append p ps r) own))

    -- The rest of a worker's life, from any point of its loop on.
    rest-Owns :
        (n : ℕ) (s : api.State) (b : Worker) (l r : List ℕ)
        → Owns s (l ++ (b.allocs ++ r))
        → Owns
            (free_all api sizes max_alloc
              (reverse (turns api sizes max_alloc n s b).1.allocs)
              (turns api sizes max_alloc n s b).0)
            (l ++ r)
    rest-Owns n s b l r own =
        let end = turns api sizes max_alloc n s b in
        free_all-Owns (reverse end.1.allocs) end.0 l r (
          subst (λ k. Owns end.0 (l ++ (k ++ r))) (sym (reverse-reverse end.1.allocs))
            (turns-Owns n s b l r own))

    body-Owns :
        (n : ℕ) (s : api.State) (rest : List ℕ)
        → Owns s rest
        → Owns (body api sizes max_alloc n s) rest
    unfolding body
    body-Owns n s rest own = rest-Owns n s new_worker [] rest own

  -- The blocks of a thread, and of several, with `rest` behind.
  abbrev blocks : Task → List ℕ
  blocks (filling_loop t left b) = b.allocs
  blocks (freeing ps) = reverse ps

  abbrev all_blocks : List Task → List ℕ → List ℕ
  all_blocks [] rest = rest
  all_blocks (t ∷ ts) rest = blocks t ++ all_blocks ts rest

  module _ (dist : Dist) (max_alloc lo hi : ℕ) where
    task_step-Owns :
        (s : api.State) (t : Task) (l r : List ℕ)
        → Owns s (l ++ (blocks t ++ r))
        → Owns
            (task_step api dist max_alloc lo hi s t).0
            (l ++ (blocks (task_step api dist max_alloc lo hi s t).1 ++ r))
    unfolding task_step
    task_step-Owns s (filling_loop t zero b) l r own =
        subst (λ k. Owns s (l ++ (k ++ r))) (sym (reverse-reverse b.allocs)) own
    task_step-Owns s (filling_loop t (suc n) b) l r own =
        turn-Owns (dist (42 + t) lo hi) max_alloc s b.filling b.allocs b.drawn l r own
    task_step-Owns s (freeing []) l r own = own
    task_step-Owns s (freeing (p ∷ ps)) l r own =
        taken_behind s l (reverse ps) r p
          (subst (λ k. Owns s (l ++ k)) (reverse_cons-append p ps r) own)

    step_at-Owns :
        (i : ℕ) (s : api.State) (ts : List Task) (l rest : List ℕ)
        → Owns s (l ++ all_blocks ts rest)
        → Owns
            (step_at api dist max_alloc lo hi i s ts).0
            (l ++ all_blocks (step_at api dist max_alloc lo hi i s ts).1 rest)
    unfolding step_at
    step_at-Owns i s [] l rest own = own
    step_at-Owns zero s (t ∷ ts) l rest own = task_step-Owns s t l (all_blocks ts rest) own
    step_at-Owns (suc i) s (t ∷ ts) l rest own =
        let next = step_at api dist max_alloc lo hi i s ts in
        subst (Owns next.0) (append_assoc l (blocks t) (all_blocks next.1 rest)) (
          step_at-Owns i s ts (l ++ blocks t) rest
            (subst (Owns s) (sym (append_assoc l (blocks t) (all_blocks ts rest))) own))

    interleave-Owns :
        (schedule : List ℕ) (s : api.State) (ts : List Task) (rest : List ℕ)
        → Owns s (all_blocks ts rest)
        → Owns
            (interleave api dist max_alloc lo hi schedule s ts).0
            (all_blocks (interleave api dist max_alloc lo hi schedule s ts).1 rest)
    unfolding interleave
    interleave-Owns [] s ts rest own = own
    interleave-Owns (i ∷ schedule) s ts rest own =
        let next = step_at api dist max_alloc lo hi i s ts in
        interleave-Owns schedule next.0 next.1 rest (step_at-Owns i s ts [] rest own)

    finish_all-Owns :
        (ts : List Task) (s : api.State) (rest : List ℕ)
        → Owns s (all_blocks ts rest)
        → Owns (finish_all api dist max_alloc lo hi ts s) rest
    unfolding finish_all finish
    finish_all-Owns [] s rest own = own
    finish_all-Owns (filling_loop t left b ∷ ts) s rest own =
        finish_all-Owns ts _ rest
          (rest-Owns (dist (42 + t) lo hi) max_alloc left s b [] (all_blocks ts rest) own)
    finish_all-Owns (freeing ps ∷ ts) s rest own =
        finish_all-Owns ts _ rest
          (free_all-Owns (dist 42 lo hi) max_alloc ps s [] (all_blocks ts rest) own)

  module _ (dist : Dist) where
    start-Owns :
        (n t iterations : ℕ) (rest : List ℕ)
        → all_blocks (start_threads api dist n t iterations) rest ≡ rest
    start-Owns zero t iterations rest = refl
    start-Owns (suc n) t iterations rest = start-Owns n (suc t) iterations rest

    run_multi-Owns :
        (schedule : List ℕ) (n iterations max_alloc lo hi : ℕ) (s : api.State) (rest : List ℕ)
        → Owns s rest
        → Owns (run_multi api dist schedule n iterations max_alloc lo hi s) rest
    unfolding run_multi
    run_multi-Owns schedule n iterations max_alloc lo hi s rest own =
        let ts = start_threads api dist n 0 iterations in
        let next = interleave api dist max_alloc lo hi schedule s ts in
        finish_all-Owns dist max_alloc lo hi next.1 next.0 rest (
          interleave-Owns dist max_alloc lo hi schedule s ts rest
            (subst (Owns s) (sym (start-Owns n 0 iterations rest)) own))

  module _ (dist : Dist) (schedule : TestCase → List ℕ) where
    run_tests-Owns :
        (ts : List TestCase) (s : api.State) (rest : List ℕ)
        → Owns s rest
        → Owns (run_tests api dist schedule ts s) rest
    unfolding run_tests run_test run_single
    run_tests-Owns [] s rest own = own
    run_tests-Owns (t ∷ ts) s rest own =
        run_tests-Owns ts (run_test api dist schedule t s) rest (elim (Bool-cases (t.thr == 1)) [
          | inl one ↦ rw one (body-Owns (dist 42 t.lo t.hi) 2000 t.iter s rest own)
          | inr more ↦
              rw more (run_multi-Owns dist (schedule t) t.thr t.iter 2000 t.lo t.hi s rest own)
        ])

    -- On an allocator under which what `alloc` gives, and nothing else, can be freed, once: in
    -- whatever order the threads of each test make their iterations, the benchmark ends owning what
    -- it owned before, or, where the first `alloc` returns null, with the exit code 1 and that
    -- result.
    pub main-Owns :
        (s : api.State) (rest : List ℕ)
        → Owns s rest
        → ((main api dist schedule s).0 ≡ 0 × Owns (main api dist schedule s).1 rest)
          ⊎ ((main api dist schedule s).0 ≡ 1 × ((api.alloc s 64).0 ≡ 0))
    unfolding main
    main-Owns s rest own = elim (Bool-cases ((api.alloc s 64).0 == 0)) [
      | inl z ↦ rw z (inr (refl, (==_iff (api.alloc s 64).0 0).0 z))
      | inr ne ↦ rw ne (
          inl (
            refl,
            run_tests-Owns tests (api.free (api.alloc s 64).1 (api.alloc s 64).0) rest
                (taken (api.alloc s 64).1 [] rest (api.alloc s 64).0 (given s [] rest 64 own)),
          ))
    ]
