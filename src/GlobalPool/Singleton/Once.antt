-- ===== src/GlobalPool/Singleton/Once.antt =====
-- Every thread gets the same pool, and every other pool is deleted once.
use np_alloc.Prelude.{
  ℕ, ◌+◌, ◌==◌, ◌≡◌, ◌≢◌, ◌⊎◌, inl, inr, refl, sym, ap, ◌∙◌, if◌then◌else◌, arith, Bool-cases,
  ==_iff, subst,
}
use np_alloc.GlobalPool.Singleton.{
  Pc, idle, start_get, create, exchange, dispose, hooking, got, start_del, deleting, silent, access,
  Status, unborn, private, shared, gone, System, ran, Step, call_get, call_del, run, Reachable,
  start, later,
}
use np_alloc.GlobalPool.Singleton.Kept.{
  Pending, Returns, Inv, init-Inv, moved-Inv, created-Inv, deleted-Inv, published-Inv,
  registered-Inv, Hooks, withdrawn-Inv,
}

run-Inv :
    (s : System) (i fresh : ℕ) (p : Pc)
    → Inv s
    → s.pc i ≡ p
    → s.status fresh ≡ unborn
    → fresh ≢ 0
    → Inv (ran s i (access fresh s.g_pool p))
unfolding access
run-Inv s i fresh idle v was new ne =
    moved-Inv s i idle idle s.dels v was (λ q h. h) (λ q h. h) (λ z q h. absurd h)
      (λ z. (z, λ h. h)) (λ h. h) (λ h. h)
run-Inv s i fresh start_get v was new ne = elim (Bool-cases (s.g_pool == 0)) [
  | inl e ↦ rw e (
      moved-Inv s i start_get create s.dels v was (λ q h. h) (λ q h. h) (λ z q h. absurd h)
        (λ z. (z, λ h. h)) (λ h. h) (λ h. h))
  | inr f ↦ rw f (
      moved-Inv s i start_get (got s.g_pool) s.dels v was (λ q h. h) (λ q h. h)
        (λ z q h. (sym h, λ y. ground (arith, h, y, f))) (λ z. (z, λ h. h)) (λ h. h) (λ h. h))
]
run-Inv s i fresh create v was new ne = created-Inv s i v fresh was new ne
run-Inv s i fresh (exchange p) v was new ne = elim (Bool-cases (s.g_pool == 0)) [
  | inl e ↦ rw e (published-Inv s i v p was ((==_iff s.g_pool 0).0 e))
  | inr f ↦ rw f (
      moved-Inv s i (exchange p) (dispose p s.g_pool) s.dels v was (λ q h. h) (λ q h. h)
        (λ z q h. (sym h, λ y. ground (arith, h, y, f))) (λ z. (z, λ h. h)) (λ h. h) (λ h. h))
]
run-Inv s i fresh (dispose p ptr) v was new ne =
    deleted-Inv s i v (dispose p ptr) (got ptr) p was refl (λ q h. h) (λ q h. h)
      (λ z q h. v.agree z i q (subst (λ c. Returns c q) (sym was) h)) (λ h. h) (λ h. h) (λ h. h)
run-Inv s i fresh (hooking p) v was new ne = registered-Inv s i p v was
run-Inv s i fresh (got ptr) v was new ne =
    moved-Inv s i (got ptr) idle s.dels v was (λ q h. h) (λ q h. h) (λ z q h. absurd h)
      (λ z. (z, λ h. h)) (λ h. h) (λ h. h)
run-Inv s i fresh start_del v was new ne = elim (Bool-cases (s.g_pool == 0)) [
  | inl e ↦
      let z : s.g_pool ≡ 0 = (==_iff s.g_pool 0).0 e in
      rw e (
        subst (λ g. Inv (ran s i (g, idle, silent))) z
          (moved-Inv s i start_del idle s.dels v was (λ q h. h) (λ q h. h) (λ z q h. absurd h)
            (λ z. (z, λ h. h)) (λ h. h) (λ h. h)))
  | inr f ↦ rw f (withdrawn-Inv s i v was (λ y. ground (arith, y, f)))
]
run-Inv s i fresh (deleting ptr) v was new ne =
    deleted-Inv s i v (deleting ptr) idle ptr was refl (λ q h. h) (λ q h. h) (λ z q h. absurd h)
      (λ h. h) (λ h. h) (λ h. h)

Step-Inv : {s t : System} → Inv s → Step s t → Inv t
Step-Inv {s} v (call_get i was) =
    moved-Inv s i idle start_get s.dels v was (λ q h. h) (λ q h. h) (λ z q h. absurd h)
      (λ z. (z, λ h. h)) (λ h. h) (λ h. h)
Step-Inv {s} v (call_del i was) =
    moved-Inv s i idle start_del (s.dels + 1) v was (λ q h. h) (λ q h. h) (λ z q h. absurd h)
      (λ z. absurd (omega arith)) (λ h. h) (λ h. h)
Step-Inv {s} v (run i fresh new ne) = run-Inv s i fresh (s.pc i) v refl new ne

Reachable-Inv : {s : System} → Reachable s → Inv s
Reachable-Inv start = init-Inv
Reachable-Inv (later r st) = Step-Inv (Reachable-Inv r) st

-- However many threads call `get_global_pool` and `del_global_pool`, in any order: a pool that has
-- been created and not deleted is the one that `g_pool` points to, or one thread, which has just
-- created it or taken it out of `g_pool`, is about to publish or to delete it; a pool that `g_pool`
-- points to has not been deleted; and no thread is about to delete a pool a second time.
pub one_pool :
    {s : System}
    → Reachable s
    → ((p : ℕ)
        → s.status p ≢ unborn
        → s.status p ≢ gone
        → (s.g_pool ≡ p) ⊎ ((i : ℕ) × Pending (s.pc i) p))
      × (s.g_pool ≢ 0 → s.status s.g_pool ≡ shared)
      × ((i j p : ℕ)
          → Pending (s.pc i) p
          → Pending (s.pc j) p
          → (i ≡ j) × (s.status p ≢ gone) × (s.g_pool ≢ p))
one_pool {s} r =
    let v = Reachable-Inv r in
    (
      λ p alive there. whose (s.status p) p refl alive there v,
      v.there,
      λ i j p h h'.
          let mine = v.pending i p h in
          let other = v.pending j p h' in
          (
            ground (arith, mine, other),
            λ e. ground (arith, mine, e),
            λ e. ground (arith, mine, v.null, subst (λ q. q ≢ 0 → s.status q ≡ shared) e v.there),
          ),
    )
  where
    whose :
        (x : Status) (p : ℕ)
        → s.status p ≡ x
        → s.status p ≢ unborn
        → s.status p ≢ gone
        → Inv s
        → (s.g_pool ≡ p) ⊎ ((i : ℕ) × Pending (s.pc i) p)
    whose unborn p e alive there v = absurd (alive e)
    whose (private i) p e alive there v = inr (i, v.owned i p e)
    whose shared p e alive there v = inl (v.here p e)
    whose gone p e alive there v = absurd (there e)

Hooks-hooking : (c : Pc) → Hooks c → (p : ℕ) × (c ≡ hooking p)
Hooks-hooking idle h = absurd h
Hooks-hooking start_get h = absurd h
Hooks-hooking create h = absurd h
Hooks-hooking (exchange new) h = absurd h
Hooks-hooking (dispose new ptr) h = absurd h
Hooks-hooking (hooking new) h = (new, refl)
Hooks-hooking (got ptr) h = absurd h
Hooks-hooking start_del h = absurd h
Hooks-hooking (deleting ptr) h = absurd h

-- As long as no thread has called `del_global_pool`: every call of `get_global_pool` returns the
-- same pool, the one that `g_pool` points to. Once that pool is there, `std::atexit` has been called
-- once; or it has not been called, and one thread alone, the one that has published the pool, is
-- about to call it.
pub get_global_pool-agree :
    {s : System}
    → Reachable s
    → s.dels ≡ 0
    → ((i p : ℕ) → s.pc i ≡ got p → (p ≡ s.g_pool) × (p ≢ 0))
      × (((s.hooks ≡ (if s.g_pool == 0 then 0 else 1)) × ((i p : ℕ) → s.pc i ≢ hooking p))
          ⊎ ((s.hooks ≡ 0)
              × (s.g_pool ≢ 0)
              × (i : ℕ) × (s.pc i ≡ hooking s.g_pool)
              × ((j p : ℕ) → s.pc j ≡ hooking p → j ≡ i)))
get_global_pool-agree {s} r none =
    let v = Reachable-Inv r in
    (
      λ i p e.
          let (same, ne) = v.agree none i p (subst (λ c. Returns c p) (sym e) refl) in
          (sym same, ne),
      elim (v.once none) [
        | inl (e, free) ↦ inl (e, λ i p h. free i (subst Hooks (sym h) tt))
        | inr (e, ne, i, here, only) ↦
            let (p, at) = Hooks-hooking (s.pc i) here in
            let same = v.agree none i p (subst (λ c. Returns c p) (sym at) refl) in
            inr (e, ne, i, at ∙ ap hooking (sym same.0), λ j q h. only j (subst Hooks (sym h) tt))
      ],
    )
