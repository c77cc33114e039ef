-- ===== src/ThreadLocalPool/Mapping.antt =====
-- The table from a number of bytes to a pool.
use np_alloc.Prelude.{
  ℕ, zero, suc, ◌+◌, ◌<◌, ◌≤◌, ◌≡◌, ◌≢◌, refl, Bool, true, false, List, [], ◌∷◌, Option, none, some,
  leb, ltb, ◌==◌, if◌then◌else◌, get_elem?, arith, Bool-cases, inl, inr, ◌∙◌, ap,
}
use np_alloc.LfStack.{update}
use np_alloc.Mmap.{ok}
use np_alloc.GlobalPool.{GlobalPool}
use np_alloc.ThreadLocalPool.{Table, map_pool, map_pools, max_size, init, ThreadPool, create_pools}

-- The first entry of `sizes` that is not below `n`, counted from `i`.
abbrev pub first_fit : List ℕ → (n i : ℕ) → Option ℕ
first_fit [] n i = none
first_fit (s ∷ sizes) n i = if leb n s then some i else first_fit sizes n (i + 1)

map_pool_step :
    (fuel alloc_size i : ℕ) (cur_size : ℕ) (table : ℕ → Option ℕ)
    → leb cur_size alloc_size ≡ true
    → map_pool (suc fuel) alloc_size i (cur_size, table)
      ≡ map_pool fuel alloc_size i (cur_size + 1, update table cur_size (some i))
unfolding map_pool
map_pool_step fuel alloc_size i cur_size table below = rw (below, map_pool) refl

map_pool_stop :
    (fuel alloc_size i : ℕ) (cur_size : ℕ) (table : ℕ → Option ℕ)
    → leb cur_size alloc_size ≡ false
    → map_pool (suc fuel) alloc_size i (cur_size, table) ≡ (cur_size, table)
unfolding map_pool
map_pool_stop fuel alloc_size i cur_size table above = rw (above, map_pool) refl

-- One pool's `while` writes the entries from `cur_size` to `alloc_size`.
map_pool_lem :
    (fuel alloc_size i : ℕ) (cur_size : ℕ) (table : ℕ → Option ℕ) (n : ℕ)
    → alloc_size < cur_size + fuel
    → ((map_pool fuel alloc_size i (cur_size, table)).0
        ≡ (if leb cur_size alloc_size then alloc_size + 1 else cur_size))
      × ((map_pool fuel alloc_size i (cur_size, table)).1 n
          ≡ (if leb cur_size n then (if leb n alloc_size then some i else table n) else table n))
unfolding map_pool
map_pool_lem zero alloc_size i cur_size table n h = (ground arith, ground arith)
map_pool_lem (suc fuel) alloc_size i cur_size table n h =
    elim (Bool-cases (leb cur_size alloc_size)) [
      | inl below ↦
          let ih =
            map_pool_lem fuel alloc_size i (cur_size + 1) (update table cur_size (some i)) n
              (omega arith) in
          let step = map_pool_step fuel alloc_size i cur_size table below in
          (
            ap (λ (t : Table). t.0) step ∙ ih.0 ∙ ground arith,
            ap (λ (t : Table). t.1 n) step ∙ ih.1 ∙ ground arith,
          )
      | inr above ↦
          rw (map_pool_stop fuel alloc_size i cur_size table above, above)
            (refl, ground (arith, above))
    ]

abbrev pub or_else : Option ℕ → Option ℕ → Option ℕ
or_else none d = d
or_else (some a) d = some a

prepend :
    (c s n i : ℕ) (f d : Option ℕ)
    → (if leb (if leb c s then s + 1 else c) n
        then or_else f (if leb c n then (if leb n s then some i else d) else d)
        else (if leb c n then (if leb n s then some i else d) else d))
      ≡ (if leb c n then or_else (if leb n s then some i else f) d else d)
prepend c s n i f d = elim (Bool-cases (leb c n)) [
  | inl a ↦ elim (Bool-cases (leb n s)) [
    | inl b ↦ ground (arith, a, b)
    | inr b ↦ ground (arith, a, b)
  ]
  | inr a ↦ ground (arith, a)
]

-- All the loops together: the entries below `cur_size` stay, the others get the first fit.
map_pools_lem :
    (sizes : List ℕ) (i cur_size : ℕ) (table : ℕ → Option ℕ) (n : ℕ)
    → (map_pools sizes i (cur_size, table)).1 n
      ≡ (if leb cur_size n then or_else (first_fit sizes n i) (table n) else table n)
unfolding map_pools
map_pools_lem [] i cur_size table n = ground arith
map_pools_lem (s ∷ sizes) i cur_size table n =
    let one = map_pool_lem (s + 1) s i cur_size table n (omega arith) in
    let next = map_pool (s + 1) s i (cur_size, table) in
    let rest = map_pools_lem sizes (i + 1) next.0 next.1 n in
    rest ∙ rw (one.0, one.1) (prepend cur_size s n i (first_fit sizes n (i + 1)) (table n))

-- The cursor ends behind the largest size.
map_pools_cursor :
    (sizes : List ℕ) (i m : ℕ) (table : ℕ → Option ℕ)
    → (map_pools sizes i (m + 1, table)).0 ≡ max_size sizes m + 1
unfolding map_pools max_size
map_pools_cursor [] i m table = refl
map_pools_cursor (s ∷ sizes) i m table =
    let one = map_pool_lem (s + 1) s i (m + 1) table 0 (omega arith) in
    let next = map_pool (s + 1) s i (m + 1, table) in
    let e : next.0 ≡ (if ltb m s then s else m) + 1 = one.0 ∙ ground arith in
    ap (λ c. (map_pools sizes (i + 1) (c, next.1)).0) e
    ∙ map_pools_cursor sizes (i + 1) (if ltb m s then s else m) next.1

below :
    (s : ℕ) (sizes : List ℕ) (n j : ℕ)
    → leb n s ≡ false
    → ((j' s' : ℕ) → j' < j → get_elem? sizes j' ≡ some s' → s' < n)
    → (j' s' : ℕ) → j' < suc j
    → get_elem? (s ∷ sizes) j' ≡ some s'
    → s' < n
below s sizes n j low least zero s' h e = ground (arith, low, e)
below s sizes n j low least (suc j') s' h e = least j' s' (omega arith) e

first_fit-some :
    (sizes : List ℕ) (n i m : ℕ)
    → m < n
    → n ≤ max_size sizes m
    → (j : ℕ) × (s : ℕ) × (first_fit sizes n i ≡ some (i + j))
      × (get_elem? sizes j ≡ some s)
      × (n ≤ s)
      × ((j' s' : ℕ) → j' < j → get_elem? sizes j' ≡ some s' → s' < n)
unfolding max_size
first_fit-some [] n i m lo hi = absurd (omega arith)
first_fit-some (s ∷ sizes) n i m lo hi = elim (Bool-cases (leb n s)) [
  | inl fits ↦
      (0, s, rw fits (ap some (omega arith)), refl, ground arith, λ j' s' h. absurd (omega arith))
  | inr low ↦
      let (j, t, e, at, le, least) =
        first_fit-some sizes n (i + 1) (if ltb m s then s else m) (ground (arith, low)) hi in
      (suc j, t, rw low (e ∙ ap some (omega arith)), at, le, below s sizes n j low least)
]

-- The loops from the start.
start_cursor :
    (s : ℕ) (sizes : List ℕ) (table : ℕ → Option ℕ)
    → (map_pools (s ∷ sizes) 0 (0, table)).0 ≡ max_size (s ∷ sizes) 0 + 1
unfolding map_pools max_size
start_cursor s sizes table =
    let one = map_pool_lem (s + 1) s 0 0 table 0 (omega arith) in
    let next = map_pool (s + 1) s 0 (0, table) in
    let e : next.0 ≡ (if ltb 0 s then s else 0) + 1 = one.0 ∙ ground arith in
    ap (λ c. (map_pools sizes 1 (c, next.1)).0) e
    ∙ map_pools_cursor sizes 1 (if ltb 0 s then s else 0) next.1

-- Where `np::aligned_alloc` returns memory for the table, `init` succeeds, and the table has for each number of bytes up to the largest size, other than
-- zero, the first pool whose blocks have that many bytes.
pub init-first_fit :
    (ndebug : Bool) (mapping s : ℕ) (sizes : List ℕ) (g : GlobalPool)
    → mapping ≢ 0
    → (tp : ThreadPool) × (init ndebug mapping (s ∷ sizes) g ≡ ok tp)
      × (tp.tls_pool ≡ create_pools (s ∷ sizes) g)
      × ((n : ℕ)
          → 0 < n
          → n ≤ tp.max_alloc_size
          → (i : ℕ) × (size : ℕ) × (tp.mapping_pool n ≡ some i)
            × (get_elem? (s ∷ sizes) i ≡ some size)
            × (n ≤ size)
            × ((j t : ℕ) → j < i → get_elem? (s ∷ sizes) j ≡ some t → t < n))
unfolding init
init-first_fit ndebug mapping s sizes g there =
    let made : (mapping == 0) ≡ false = ground (arith, there) in
    let done = start_cursor s sizes (λ n. none) in
    let passed : (map_pools (s ∷ sizes) 0 (0, λ n. none)).0 == max_size (s ∷ sizes) 0 + 1 ≡ true =
      rw done (ground arith) in
    (
      record {
        tls_pool = create_pools (s ∷ sizes) g;
        mapping_pool = (map_pools (s ∷ sizes) 0 (0, λ n. none)).1;
        max_alloc_size = max_size (s ∷ sizes) 0;
      },
      elim (Bool-cases ndebug) [
        | inl y ↦ rw (made, passed, y) refl
        | inr n ↦ rw (made, passed, n) refl
      ],
      refl,
      λ n lo hi.
          let (j, t, e, at, le, least) = first_fit-some (s ∷ sizes) n 0 0 lo hi in
          (j, t, map_pools_lem (s ∷ sizes) 0 0 (λ n. none) n ∙ rw e (ground arith), at, le, least),
    )
