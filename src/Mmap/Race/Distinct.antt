-- ===== src/Mmap/Race/Distinct.antt =====
-- Threads that make chunks at once get different chunks.
use np_alloc.Prelude.{ℕ, zero, suc, ◌≡◌, ◌≤◌, ◌<◌, List, [], ◌∷◌, Option, none, some}
use np_alloc.Mmap.{Mmap}
use np_alloc.Mmap.Chunks.{chunk}
use np_alloc.Mmap.Race.{Pc, idle, loaded, ready, made, returned, stopped, not_committed, System}

-- The first `n` chunks, the last one first.
abbrev pub chunks_below : Mmap → ℕ → List ℕ
chunks_below mm zero = []
chunks_below mm (suc n) = chunk mm n ∷ chunks_below mm n

-- What a thread knows, with `n` chunks made.
abbrev Local : Mmap → ℕ → Pc → Type 0
Local mm n idle = Unit
Local mm n (loaded head) = (j : ℕ) × (j ≤ n) × (head ≡ chunk mm j)
Local mm n (ready head next_ptr) =
    (j : ℕ) × (j < 4096) × (head ≡ chunk mm j) × (next_ptr ≡ chunk mm (suc j))
Local mm n (made head) = (j : ℕ) × (j < n) × (head ≡ chunk mm j)
Local mm n (returned result) = (j : ℕ) × (j < n) × (result ≡ chunk mm j)
Local mm n stopped = n ≡ 4096
Local mm n not_committed = Unit

record Inv (mm : Mmap) (n : ℕ) (s : System) : Type 0 where
  few : n ≤ 4096
  top : s.head ≡ chunk mm n
  local : (i : ℕ) → Local mm n (s.pc i)

-- One step: what the thread knows then, and what is made.
abbrev Steps : Mmap → ℕ → ℕ × Pc × Option ℕ → Type 0
Steps mm n (head, p, none) = (head ≡ chunk mm n) × Local mm n p
Steps mm n (head, p, some q) =
    (n < 4096) × (q ≡ chunk mm n) × (head ≡ chunk mm (suc n)) × Local mm (suc n) p
