-- ===== src/Bench.antt =====
-- bench/bench.cpp: the workload that the two allocators are timed on. The threads of a test are
-- interleaved, each call of the allocator being one step. The clock, and what it prints, are left
-- out.
pub mod Owned
use np_alloc.Prelude.{
  ℕ, zero, suc, ◌+◌, ◌==◌, ltb, Bool, true, false, List, [], ◌∷◌, length, Text, codes,
  if◌then◌else◌,
}
use mathlib.Core.List.{reverse}

-- `malloc_API` and `np_alloc_API`.
pub record Api : Type 1 where
  pub State : Type 0
  pub alloc : State → (sz : ℕ) → ℕ × State
  pub free : State → ℕ → State

-- What one thread has: `allocs` with its back first, and how many sizes it has drawn.
pub record Worker : Type 0 where
  pub filling : Bool
  pub allocs : List ℕ
  pub drawn : ℕ

abbrev pub new_worker : Worker
new_worker = record { filling = true; allocs = []; drawn = 0 }

-- `mt19937` with the seed `seed`, under `uniform_int_distribution(min_sz, max_sz)`: the size that
-- is drawn at each turn.
abbrev pub Dist : Type 0
Dist = (seed min_sz max_sz turn : ℕ) → ℕ

module _ (api : Api) (sizes : ℕ → ℕ) (max_alloc : ℕ) where
  -- One iteration.
  unfoldable pub turn :
      api.State → (filling : Bool) → (allocs : List ℕ) → (drawn : ℕ) → api.State × Worker
  turn s true allocs drawn =
      let (p, s') = api.alloc s (sizes drawn) in
      if ltb (length allocs) max_alloc
      then (s', record { filling = true; allocs = p ∷ allocs; drawn = drawn + 1 })
      else (s, record { filling = false; allocs = allocs; drawn = drawn })
  turn s false [] drawn = (s, record { filling = true; allocs = []; drawn = drawn })
  turn s false (p ∷ allocs) drawn =
      (api.free s p, record { filling = false; allocs = allocs; drawn = drawn })

  unfoldable pub turns : (iterations : ℕ) → api.State → Worker → api.State × Worker
  turns zero s b = (s, b)
  turns (suc n) s b = let (s', b') = turn s b.filling b.allocs b.drawn in turns n s' b'

  -- `for (auto* p : allocs) API::free(p);`
  unfoldable pub free_all : List ℕ → api.State → api.State
  free_all [] s = s
  free_all (p ∷ ps) s = free_all ps (api.free s p)

  unfoldable pub body : (iterations : ℕ) → api.State → api.State
  body iterations s = let (s', b) = turns iterations s new_worker in free_all (reverse b.allocs) s'

-- Where a thread of `run_multi` stands: in its loop, with the iterations that are left, or in the
-- loop that frees, with what is left of `allocs`, its front first.
pub data Task : Type 0 where
  filling_loop : (t left : ℕ) (b : Worker) → Task
  freeing : (ps : List ℕ) → Task

module _ (api : Api) (dist : Dist) where
  unfoldable pub run_single : (iterations max_alloc min_sz max_sz : ℕ) → api.State → api.State
  run_single iterations max_alloc min_sz max_sz s =
      body api (dist 42 min_sz max_sz) max_alloc iterations s

  module _ (max_alloc min_sz max_sz : ℕ) where
    -- One iteration of one of the loops.
    unfoldable pub task_step : api.State → Task → api.State × Task
    task_step s (filling_loop t zero b) = (s, freeing (reverse b.allocs))
    task_step s (filling_loop t (suc n) b) =
        let (s', b') =
          turn api (dist (42 + t) min_sz max_sz) max_alloc s b.filling b.allocs b.drawn in
        (s', filling_loop t n b')
    task_step s (freeing []) = (s, freeing [])
    task_step s (freeing (p ∷ ps)) = (api.free s p, freeing ps)

    -- One step of the thread at a place in the list, if there is one.
    unfoldable pub step_at : (i : ℕ) → api.State → List Task → api.State × List Task
    unfolding task_step
    step_at i s [] = (s, [])
    step_at zero s (t ∷ ts) = let (s', t') = task_step s t in (s', t' ∷ ts)
    step_at (suc i) s (t ∷ ts) = let (s', ts') = step_at i s ts in (s', t ∷ ts')

    -- The threads at once, in the order of their steps that `schedule` says.
    unfoldable pub interleave : (schedule : List ℕ) → api.State → List Task → api.State × List Task
    unfolding step_at
    interleave [] s ts = (s, ts)
    interleave (i ∷ schedule) s ts = let (s', ts') = step_at i s ts in interleave schedule s' ts'

    -- What is left of a thread.
    unfoldable pub finish : Task → api.State → api.State
    finish (filling_loop t left b) s =
        let (s', b') = turns api (dist (42 + t) min_sz max_sz) max_alloc left s b in
        free_all api (dist (42 + t) min_sz max_sz) max_alloc (reverse b'.allocs) s'
    finish (freeing ps) s = free_all api (dist 42 min_sz max_sz) max_alloc ps s

    unfoldable pub finish_all : List Task → api.State → api.State
    finish_all [] s = s
    finish_all (t ∷ ts) s = finish_all ts (finish t s)

  abbrev pub start_threads : (nthreads t iterations : ℕ) → List Task
  start_threads zero t iterations = []
  start_threads (suc n) t iterations =
      filling_loop t iterations new_worker ∷ start_threads n (suc t) iterations

  -- The threads make their steps in the order of `schedule`, and what is left of them when it ends,
  -- which is nothing where it is long enough, is run before the joins return.
  unfoldable pub run_multi :
      (schedule : List ℕ)
      → (nthreads iterations max_alloc min_sz max_sz : ℕ) → api.State
      → api.State
  run_multi schedule nthreads iterations max_alloc min_sz max_sz s =
      let (s', ts) =
        interleave max_alloc min_sz max_sz schedule s (start_threads nthreads 0 iterations) in
      finish_all max_alloc min_sz max_sz ts s'

abbrev pub single_iterations : ℕ
single_iterations = 500000

abbrev pub multi_threads : ℕ
multi_threads = 4

abbrev pub multi_iterations : ℕ
multi_iterations = 100000

abbrev pub default_max_alloc : ℕ
default_max_alloc = 2000

pub record TestCase : Type 0 where
  pub name : Text
  pub thr : ℕ
  pub iter : ℕ
  pub lo : ℕ
  pub hi : ℕ

abbrev pub test_case : Text → ℕ → ℕ → ℕ → ℕ → TestCase
test_case name thr iter lo hi = record { name = name; thr = thr; iter = iter; lo = lo; hi = hi }

abbrev pub tests : List TestCase
tests =
    test_case (codes "random_single  (100-7100)") 1 single_iterations 100 7100
    ∷ test_case (codes "small_single   (50-300)") 1 single_iterations 50 300
    ∷ test_case (codes "big_single     (5000-7500)") 1 single_iterations 5000 7500
    ∷ test_case (codes "random_multi   (100-7100)") multi_threads multi_iterations 100 7100
    ∷ test_case (codes "small_multi    (50-300)") multi_threads multi_iterations 50 300
    ∷ test_case (codes "big_multi      (5000-7500)") multi_threads multi_iterations 5000 7500
    ∷ []

-- `schedule` has the order of the threads' steps for each test.
module _ (api : Api) (dist : Dist) (schedule : TestCase → List ℕ) where
  unfoldable pub run_test : TestCase → api.State → api.State
  run_test t s =
      if t.thr == 1
      then run_single api dist t.iter default_max_alloc t.lo t.hi s
      else run_multi api dist (schedule t) t.thr t.iter default_max_alloc t.lo t.hi s

  unfoldable pub run_tests : List TestCase → api.State → api.State
  run_tests [] s = s
  run_tests (t ∷ ts) s = run_tests ts (run_test t s)

  -- `main`, on this allocator: the exit code, and the state. It warms up with one allocation.
  unfoldable pub main : api.State → ℕ × api.State
  main s =
      let (w, s') = api.alloc s 64 in
      if w == 0 then (1, s') else (0, run_tests tests (api.free s' w))
