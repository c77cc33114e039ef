-- ===== src/Examples/Races.antt =====
-- Two threads in src/np_mmap.cpp and in src/np_alloc.cpp.
use np_alloc.Prelude.{ℕ, ◌^◌, ◌≡◌, ◌≢◌, ◌==◌, ◌⊎◌, refl, arith, if◌then◌else◌}
use np_alloc.LfStack.{update}
use np_alloc.Mmap.Race
use np_alloc.GlobalPool.Singleton.{
  Reachable, start, later, call_get, run, System, init, ran, access, start_get, unborn, gone,
  shared, hooking, got,
}
use np_alloc.GlobalPool.Singleton.Kept.{Pending}
use np_alloc.GlobalPool.Singleton.Once.{one_pool, get_global_pool-agree}

-- Both threads have read `head_`.
abbrev both_loaded : Race.System
both_loaded = record {
  head = 2 ^ 32;
  pc = update (update (λ i. Race.idle) 0 (Race.loaded (2 ^ 32))) 1 (Race.loaded (2 ^ 32));
}

-- Thread 3 has asked for the pool, and has found none.
abbrev asked : System
asked = ran (record init { pc = update init.pc 3 start_get }) 3 (access 64 0 start_get)

asked-Reachable : Reachable asked
asked-Reachable =
    later (later start (call_get 3 refl)) (run 3 64 refl (λ e. absurd (omega (arith, e))))

one_pool_example :
    ((p : ℕ)
      → asked.status p ≢ unborn
      → asked.status p ≢ gone
      → (asked.g_pool ≡ p) ⊎ ((i : ℕ) × Pending (asked.pc i) p))
    × (asked.g_pool ≢ 0 → asked.status asked.g_pool ≡ shared)
    × ((i j p : ℕ)
        → Pending (asked.pc i) p
        → Pending (asked.pc j) p
        → (i ≡ j) × (asked.status p ≢ gone) × (asked.g_pool ≢ p))
one_pool_example = one_pool asked-Reachable

get_global_pool-agree_example :
    ((i p : ℕ) → asked.pc i ≡ got p → (p ≡ asked.g_pool) × (p ≢ 0))
    × (((asked.hooks ≡ (if asked.g_pool == 0 then 0 else 1)) × ((i p : ℕ) → asked.pc i ≢ hooking p))
        ⊎ ((asked.hooks ≡ 0)
            × (asked.g_pool ≢ 0)
            × (i : ℕ) × (asked.pc i ≡ hooking asked.g_pool)
            × ((j p : ℕ) → asked.pc j ≡ hooking p → j ≡ i)))
unfolding access
get_global_pool-agree_example = get_global_pool-agree asked-Reachable refl
