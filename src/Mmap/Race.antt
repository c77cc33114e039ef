-- ===== src/Mmap/Race.antt =====
-- `alloc_chunk_from_new` by several threads at once. One thread at a time makes one step: the load
-- of `head_`, the body of the loop, a compare-exchange, which may fail for no reason, or what
-- follows the loop, with the result of `virtual_alloc`.
pub mod Distinct
use np_alloc.Prelude.{
  ℕ, ◌+◌, ◌%◌, ◌^◌, ◌==◌, ◌≡◌, Bool, true, false, ◌&&◌, not, List, [], ◌∷◌, Option, none, some,
  if◌then◌else◌, ◌⊎◌,
}
use np_alloc.LfStack.{update}
use np_alloc.Mmap.{
  Mmap, Result, ok, aborted, fault, ◌>>=◌, ◌>>◌, assert, get_chunk_index, get_chunk_ptr, no_index,
}

-- Where a thread stands, with its local variables.
pub data Pc : Type 0 where
  idle : Pc
  loaded : (head : ℕ) → Pc  -- top of the loop
  ready : (head next_ptr : ℕ) → Pc  -- before the compare-exchange
  made : (head : ℕ) → Pc  -- before the pages are committed
  returned : (result : ℕ) → Pc
  stopped : Pc  -- an assertion on a chunk's number or address failed
  not_committed : Pc  -- the assertion on the result of `virtual_alloc` failed

-- The body of the loop: the chunk behind `head`.
unfoldable pub next_chunk : (ndebug : Bool) → Mmap → ℕ → Result ℕ
next_chunk ndebug mm head = do
  index ← get_chunk_index ndebug mm head
  assert ndebug (not (index == no_index))
  get_chunk_ptr ndebug mm ((index + 1) % 2 ^ 64)

abbrev pub prepared : ℕ → Result ℕ → Pc
prepared head (ok next_ptr) = ready head next_ptr
prepared head aborted = stopped
prepared head fault = stopped

abbrev pub answered : (v : ℕ) → Result ℕ → Pc
answered v (ok index) = returned v
answered v aborted = stopped
answered v fault = stopped

-- What follows the loop, with the result `v` of `virtual_alloc`.
unfoldable pub committed : (ndebug : Bool) → Mmap → (v : ℕ) → Pc
committed ndebug mm v =
    if not ndebug && (v == 0) then not_committed else answered v (get_chunk_index ndebug mm v)

-- One step of one thread, where `v` is what `virtual_alloc` returns to it: the new value of `head_`, and the chunk that an exchange takes.
unfoldable pub access :
    (ndebug : Bool) → Mmap → (lucky : Bool) → (v head_ : ℕ) → Pc → ℕ × Pc × Option ℕ
unfolding committed
access ndebug mm lucky v head_ idle = (head_, loaded head_, none)
access ndebug mm lucky v head_ (loaded head) =
    if head == 0
    then (head_, returned 0, none)
    else (head_, prepared head (next_chunk ndebug mm head), none)
access ndebug mm lucky v head_ (ready head next_ptr) =
    if lucky && (head_ == head)
    then (next_ptr, made head, some head)
    else (head_, loaded head_, none)
access ndebug mm lucky v head_ (made head) = (head_, committed ndebug mm v, none)
access ndebug mm lucky v head_ (returned result) = (head_, idle, none)
access ndebug mm lucky v head_ stopped = (head_, stopped, none)
access ndebug mm lucky v head_ not_committed = (head_, not_committed, none)

pub record System : Type 0 where
  pub head : ℕ
  pub pc : ℕ → Pc

abbrev pub init : Mmap → System
init mm = record { head = mm.head; pc = λ i. idle }

abbrev pub and_made : Option ℕ → List ℕ → List ℕ
and_made none taken = taken
and_made (some p) taken = p ∷ taken

-- `virtual_alloc` returns the address that it was called with, or null: with `MAP_FIXED`, `mmap`
-- maps at that address or fails.
abbrev pub Commits : Pc → ℕ → Type 0
Commits idle v = Unit
Commits (loaded head) v = Unit
Commits (ready head next_ptr) v = Unit
Commits (made head) v = (v ≡ head) ⊎ (v ≡ 0)
Commits (returned result) v = Unit
Commits stopped v = Unit
Commits not_committed v = Unit

-- A run of any number of threads, with the chunks that were taken, the latest first.
pub data Trace (ndebug : Bool) (mm : Mmap) : List ℕ → System → Type 0 where
  start : Trace ndebug mm [] (init mm)
  later :
      {taken : List ℕ} {s : System}
      → Trace ndebug mm taken s
      → (i v : ℕ) (lucky : Bool) {head : ℕ} {p : Pc} {e : Option ℕ} → Commits (s.pc i) v
      → access ndebug mm lucky v s.head (s.pc i) ≡ (head, p, e)
      → Trace ndebug mm (and_made e taken) (record { head = head; pc = update s.pc i p })
