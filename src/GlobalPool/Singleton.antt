-- ===== src/GlobalPool/Singleton.antt =====
-- src/np_alloc.cpp, `get_global_pool`, `del_global_pool` and `is_pool_alive`: the pointer `g_pool`
-- that all threads share. One thread at a time makes one access to it, or builds or deletes a
-- pool.
pub mod Kept
pub mod Once
use np_alloc.Prelude.{ℕ, ◌+◌, ◌==◌, ◌≡◌, ◌≢◌, Bool, not, List, [], ◌∷◌, if◌then◌else◌}
use np_alloc.LfStack.{update}

pub data Pc : Type 0 where
  idle : Pc
  start_get : Pc  -- before the load
  create : Pc  -- `t_new`
  exchange : (new_pool : ℕ) → Pc  -- before `compare_exchange_strong`
  dispose : (new_pool ptr : ℕ) → Pc  -- another thread was faster
  hooking : (new_pool : ℕ) → Pc  -- before `std::atexit(del_global_pool)`
  got : (ptr : ℕ) → Pc
  start_del : Pc
  deleting : (ptr : ℕ) → Pc

pub data Event : Type 0 where
  silent : Event
  created : (p : ℕ) → Event
  published : (p : ℕ) → Event
  registered : Event  -- `std::atexit(del_global_pool)`
  withdrawn : (p : ℕ) → Event
  deleted : (p : ℕ) → Event

-- One step of one thread; `fresh` is the address that `t_new` gives.
unfoldable pub access : (fresh : ℕ) → (g_pool : ℕ) → Pc → ℕ × Pc × Event
access fresh g_pool idle = (g_pool, idle, silent)
access fresh g_pool start_get =
    if g_pool == 0 then (g_pool, create, silent) else (g_pool, got g_pool, silent)
access fresh g_pool create = (g_pool, exchange fresh, created fresh)
access fresh g_pool (exchange new_pool) =
    if g_pool == 0
    then (new_pool, hooking new_pool, published new_pool)
    else (g_pool, dispose new_pool g_pool, silent)
access fresh g_pool (dispose new_pool ptr) = (g_pool, got ptr, deleted new_pool)
access fresh g_pool (hooking new_pool) = (g_pool, got new_pool, registered)
access fresh g_pool (got ptr) = (g_pool, idle, silent)
access fresh g_pool start_del =
    if g_pool == 0 then (0, idle, silent) else (0, deleting g_pool, withdrawn g_pool)
access fresh g_pool (deleting ptr) = (g_pool, idle, deleted ptr)

abbrev pub is_pool_alive : (g_pool : ℕ) → Bool
is_pool_alive g_pool = not (g_pool == 0)

-- What has become of the memory at an address.
pub data Status : Type 0 where
  unborn : Status
  private : (thread : ℕ) → Status
  shared : Status
  gone : Status

pub record System : Type 0 where
  pub g_pool : ℕ
  pub status : ℕ → Status
  pub pc : ℕ → Pc
  pub hooks : ℕ  -- calls of `std::atexit`
  pub dels : ℕ  -- calls of `del_global_pool`

abbrev pub statuses : ℕ → Event → (ℕ → Status) → ℕ → Status
statuses i silent o = o
statuses i (created p) o = update o p (private i)
statuses i (published p) o = update o p shared
statuses i registered o = o
statuses i (withdrawn p) o = update o p (private i)
statuses i (deleted p) o = update o p gone

abbrev pub hooked : Event → ℕ → ℕ
hooked silent n = n
hooked (created p) n = n
hooked (published p) n = n
hooked registered n = n + 1
hooked (withdrawn p) n = n
hooked (deleted p) n = n

abbrev pub ran : System → ℕ → ℕ × Pc × Event → System
ran s i (g, p, e) = record {
  g_pool = g;
  status = statuses i e s.status;
  pc = update s.pc i p;
  hooks = hooked e s.hooks;
  dels = s.dels;
}

pub data Step (s : System) : System → Type 0 where
  call_get : (i : ℕ) → s.pc i ≡ idle → Step s (record s { pc = update s.pc i start_get })
  call_del :
      (i : ℕ)
      → s.pc i ≡ idle
      → Step s (record s { pc = update s.pc i start_del; dels = s.dels + 1 })
  run :
      (i fresh : ℕ)
      → s.status fresh ≡ unborn
      → fresh ≢ 0
      → Step s (ran s i (access fresh s.g_pool (s.pc i)))

abbrev pub init : System
init = record { g_pool = 0; status = λ p. unborn; pc = λ i. idle; hooks = 0; dels = 0 }

pub data Reachable : System → Type 0 where
  start : Reachable init
  later : {s t : System} → Reachable s → Step s t → Reachable t
