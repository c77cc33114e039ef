-- ===== src/GlobalPool/Singleton/Kept.antt =====
-- What every step of every thread keeps.
use np_alloc.Prelude.{
  ℕ, ◌==◌, ◌≡◌, ◌≢◌, inl, inr, refl, sym, ◌∙◌, if◌then◌else◌, ◌+◌, ◌⊎◌, false, arith, Bool-cases,
  ==_iff, subst,
}
use np_alloc.LfStack.{update}
use np_alloc.GlobalPool.Singleton.{
  Pc, idle, start_get, create, exchange, dispose, hooking, got, start_del, deleting, created,
  published, registered, withdrawn, deleted, Status, unborn, private, shared, gone, System, ran,
  init,
}

-- The pool that a thread is about to publish or to delete, and the one that it is about to return.
abbrev pub Pending : Pc → ℕ → Type 0
Pending idle p = ⊥
Pending start_get p = ⊥
Pending create p = ⊥
Pending (exchange new) p = p ≡ new
Pending (dispose new ptr) p = p ≡ new
Pending (hooking new) p = ⊥
Pending (got ptr) p = ⊥
Pending start_del p = ⊥
Pending (deleting ptr) p = p ≡ ptr

abbrev pub Returns : Pc → ℕ → Type 0
Returns idle p = ⊥
Returns start_get p = ⊥
Returns create p = ⊥
Returns (exchange new) p = ⊥
Returns (dispose new ptr) p = p ≡ ptr
Returns (hooking new) p = p ≡ new
Returns (got ptr) p = p ≡ ptr
Returns start_del p = ⊥
Returns (deleting ptr) p = ⊥

abbrev pub Deletes : Pc → Type 0
Deletes idle = ⊥
Deletes start_get = ⊥
Deletes create = ⊥
Deletes (exchange new) = ⊥
Deletes (dispose new ptr) = ⊥
Deletes (hooking new) = ⊥
Deletes (got ptr) = ⊥
Deletes start_del = Unit
Deletes (deleting ptr) = Unit

-- A thread between its exchange and its call of `std::atexit`.
abbrev pub Hooks : Pc → Type 0
Hooks idle = ⊥
Hooks start_get = ⊥
Hooks create = ⊥
Hooks (exchange new) = ⊥
Hooks (dispose new ptr) = ⊥
Hooks (hooking new) = Unit
Hooks (got ptr) = ⊥
Hooks start_del = ⊥
Hooks (deleting ptr) = ⊥

-- `std::atexit` has been called once for the pool, or one thread is about to.
abbrev pub Once : (g_pool hooks : ℕ) → (ℕ → Pc) → Type 0
Once g_pool hooks pc =
    ((hooks ≡ (if g_pool == 0 then 0 else 1)) × ((i : ℕ) → Hooks (pc i) → ⊥))
    ⊎ ((hooks ≡ 0) × (g_pool ≢ 0) × (i : ℕ) × Hooks (pc i) × ((j : ℕ) → Hooks (pc j) → j ≡ i))

pub record Inv (s : System) : Type 0 where
  pub here : (p : ℕ) → s.status p ≡ shared → s.g_pool ≡ p
  pub there : s.g_pool ≢ 0 → s.status s.g_pool ≡ shared
  pub null : s.status 0 ≡ unborn
  pub pending : (i p : ℕ) → Pending (s.pc i) p → s.status p ≡ private i
  pub owned : (i p : ℕ) → s.status p ≡ private i → Pending (s.pc i) p
  pub calm : s.dels ≡ 0 → (i : ℕ) → Deletes (s.pc i) → ⊥
  pub agree : s.dels ≡ 0 → (i p : ℕ) → Returns (s.pc i) p → (s.g_pool ≡ p) × (p ≢ 0)
  pub once : s.dels ≡ 0 → Once s.g_pool s.hooks s.pc

-- A family of facts about all threads after a step of thread `i`.
at_update :
    (P : ℕ → Pc → Type 0) (pc : ℕ → Pc) (i : ℕ) (p : Pc)
    → ((j : ℕ) → i ≢ j → P j (pc j))
    → P i p
    → (j : ℕ) → P j (update pc i p j)
at_update P pc i p old new j = elim (Bool-cases (i == j)) [
  | inl e ↦ rw e (subst (λ k. P k p) ((==_iff i j).0 e) new)
  | inr e ↦ rw e (old j (λ z. ground arith))
]

pub init-Inv : Inv init
init-Inv = record {
  here = λ p h. ground (arith, h);
  there = λ ne. absurd (ne refl);
  null = refl;
  pending = λ i p h. absurd h;
  owned = λ i p h. ground (arith, h);
  calm = λ z i h. h;
  agree = λ z i p h. absurd h;
  once = λ z. inl (refl, λ i h. h);
}

Once-update :
    (g hooks : ℕ) (pc : ℕ → Pc) (i : ℕ) (p : Pc)
    → Once g hooks pc
    → (Hooks (pc i) → ⊥)
    → (Hooks p → ⊥)
    → Once g hooks (update pc i p)
Once-update g hooks pc i p (inl (e, none)) was now =
    inl (e, at_update (λ j c. Hooks c → ⊥) pc i p (λ j d. none j) now)
Once-update g hooks pc i p (inr (e, ne, k, here, only)) was now =
    let other : (i == k) ≡ false = elim (Bool-cases (i == k)) [
      | inl same ↦ absurd (was (subst (λ j. Hooks (pc j)) (sym ((==_iff i k).0 same)) here))
      | inr apart ↦ apart
    ] in
    inr (
      e,
      ne,
      k,
      rw other here,
      at_update (λ j c. Hooks c → j ≡ k) pc i p (λ j d. only j) (λ h. absurd (now h)),
    )

-- A step of thread `i` from `old` to `p` that changes nothing else but the numbers of calls.
stepped-Inv :
    (s : System) (i : ℕ) (old p : Pc) (n hooks : ℕ)
    → Inv s
    → s.pc i ≡ old
    → ((q : ℕ) → Pending p q → Pending old q)
    → ((q : ℕ) → Pending old q → Pending p q)
    → (n ≡ 0 → (q : ℕ) → Returns p q → (s.g_pool ≡ q) × (q ≢ 0))
    → (n ≡ 0 → (s.dels ≡ 0) × (Deletes p → ⊥))
    → (n ≡ 0 → Once s.g_pool hooks (update s.pc i p))
    → Inv (record s { pc = update s.pc i p; hooks = hooks; dels = n })
stepped-Inv s i old p n hooks v was pend back ret quiet once = record {
  here = v.here;
  there = v.there;
  null = v.null;
  pending =
      at_update (λ j c. (q : ℕ) → Pending c q → s.status q ≡ private j) s.pc i p
        (λ j ne. v.pending j)
        (λ q h. v.pending i q (subst (λ c. Pending c q) (sym was) (pend q h)));
  owned =
      at_update (λ j c. (q : ℕ) → s.status q ≡ private j → Pending c q) s.pc i p (λ j ne. v.owned j)
        (λ q h. back q (subst (λ c. Pending c q) was (v.owned i q h)));
  calm =
      λ z. at_update (λ j c. Deletes c → ⊥) s.pc i p (λ j ne. v.calm ((quiet z).0) j) ((quiet z).1);
  agree = λ z.
      at_update (λ j c. (q : ℕ) → Returns c q → (s.g_pool ≡ q) × (q ≢ 0)) s.pc i p
        (λ j ne. v.agree ((quiet z).0) j) (ret z);
  once = once;
}

pub moved-Inv :
    (s : System) (i : ℕ) (old p : Pc) (n : ℕ)
    → Inv s
    → s.pc i ≡ old
    → ((q : ℕ) → Pending p q → Pending old q)
    → ((q : ℕ) → Pending old q → Pending p q)
    → (n ≡ 0 → (q : ℕ) → Returns p q → (s.g_pool ≡ q) × (q ≢ 0))
    → (n ≡ 0 → (s.dels ≡ 0) × (Deletes p → ⊥))
    → (Hooks old → ⊥)
    → (Hooks p → ⊥)
    → Inv (record s { pc = update s.pc i p; dels = n })
moved-Inv s i old p n v was pend back ret quiet free free' =
    stepped-Inv s i old p n s.hooks v was pend back ret quiet (λ z.
      Once-update s.g_pool s.hooks s.pc i p (v.once ((quiet z).0)) (λ h. free (subst Hooks was h))
        free')

-- The call of `std::atexit`.
pub registered-Inv :
    (s : System) (i new : ℕ)
    → Inv s
    → s.pc i ≡ hooking new
    → Inv (ran s i (s.g_pool, got new, registered))
registered-Inv s i new v was =
    stepped-Inv s i (hooking new) (got new) s.dels (s.hooks + 1) v was (λ q h. h) (λ q h. h)
      (λ z q h. v.agree z i q (subst (λ c. Returns c q) (sym was) h)) (λ z. (z, λ h. h))
      (λ z. once (v.once z))
  where
    mine : Hooks (s.pc i)
    mine = subst Hooks (sym was) tt

    once : Once s.g_pool s.hooks s.pc → Once s.g_pool (s.hooks + 1) (update s.pc i (got new))
    once (inl (e, none)) = absurd (none i mine)
    once (inr (e, ne, k, here, only)) = inl (
      ground (arith, e, ne),
      at_update (λ j c. Hooks c → ⊥) s.pc i (got new) (λ j d h. d (only i mine ∙ sym (only j h)))
          (λ h. h),
    )

module _ (s : System) (i : ℕ) (v : Inv s) where
  -- Thread `i` changes the status of the address `a`, which no other thread has pending.
  pending_after :
      (p : Pc) (a : ℕ) (x : Status)
      → ((j : ℕ) → i ≢ j → s.status a ≢ private j)
      → ((q : ℕ) → Pending p q → update s.status a x q ≡ private i)
      → (j q : ℕ) → Pending (update s.pc i p j) q
      → update s.status a x q ≡ private j
  pending_after p a x mine new =
      at_update (λ j c. (q : ℕ) → Pending c q → update s.status a x q ≡ private j) s.pc i p
        (λ j ne q h. elim (Bool-cases (a == q)) [
          | inl e ↦ absurd (
              mine j ne
                (subst (λ b. s.status b ≡ private j) (sym ((==_iff a q).0 e)) (v.pending j q h)))
          | inr f ↦ rw f (v.pending j q h)
        ])
        new

  owned_after :
      (p : Pc) (a : ℕ) (x : Status)
      → ((j : ℕ) → i ≢ j → x ≢ private j)
      → ((q : ℕ) → update s.status a x q ≡ private i → Pending p q)
      → (j q : ℕ) → update s.status a x q ≡ private j
      → Pending (update s.pc i p j) q
  owned_after p a x mine new =
      at_update (λ j c. (q : ℕ) → update s.status a x q ≡ private j → Pending c q) s.pc i p
        (λ j ne q h. elim (Bool-cases (a == q)) [
          | inl e ↦ absurd (mine j ne (subst (λ b. (if b then x else s.status q) ≡ private j) e h))
          | inr f ↦ v.owned j q (subst (λ b. (if b then x else s.status q) ≡ private j) f h)
        ])
        new

  pub created-Inv :
      (fresh : ℕ)
      → s.pc i ≡ create
      → s.status fresh ≡ unborn
      → fresh ≢ 0
      → Inv (ran s i (s.g_pool, exchange fresh, created fresh))
  created-Inv fresh was new ne = record {
    here = λ p h. v.here p (ground (arith, h));
    there = λ z. ground (arith, v.there z, new);
    null = ground (arith, v.null);
    pending =
        pending_after (exchange fresh) fresh (private i) (λ j d e. ground (arith, e, new))
          (λ q h. ground (arith, h));
    owned =
        owned_after (exchange fresh) fresh (private i) (λ j d e. d (ground (arith, e)))
          (λ q h. elim (Bool-cases (fresh == q)) [
            | inl e ↦ sym ((==_iff fresh q).0 e)
            | inr f ↦ absurd (subst (λ c. Pending c q) was (v.owned i q (ground (arith, h, f))))
          ]);
    calm =
        λ z. at_update (λ j c. Deletes c → ⊥) s.pc i (exchange fresh) (λ j d. v.calm z j) (λ h. h);
    agree = λ z.
        at_update (λ j c. (q : ℕ) → Returns c q → (s.g_pool ≡ q) × (q ≢ 0)) s.pc i (exchange fresh)
          (λ j d. v.agree z j) (λ q h. absurd h);
    once = λ z.
        Once-update s.g_pool s.hooks s.pc i (exchange fresh) (v.once z) (λ h. subst Hooks was h)
          (λ h. h);
  }

  -- A pool that only thread `i` has is deleted.
  pub deleted-Inv :
      (old p : Pc) (a : ℕ)
      → s.pc i ≡ old
      → Pending old a
      → ((q : ℕ) → Pending old q → q ≡ a)
      → ((q : ℕ) → Pending p q → ⊥)
      → (s.dels ≡ 0 → (q : ℕ) → Returns p q → (s.g_pool ≡ q) × (q ≢ 0))
      → (Deletes p → ⊥)
      → (Hooks old → ⊥)
      → (Hooks p → ⊥)
      → Inv (ran s i (s.g_pool, p, deleted a))
  deleted-Inv old p a was have only none ret quiet free free' =
      let mine : s.status a ≡ private i = v.pending i a (subst (λ c. Pending c a) (sym was) have) in
      record {
        here = λ q h. v.here q (ground (arith, h));
        there = λ z. ground (arith, v.there z, mine);
        null = ground (arith, v.null, mine);
        pending =
            pending_after p a gone (λ j d e. ground (arith, e, mine, d)) (λ q h. absurd (none q h));
        owned =
            owned_after p a gone (λ j d e. ground (arith, e))
              (λ q h. elim (Bool-cases (a == q)) [
                | inl e ↦ absurd (ground (arith, h, e))
                | inr f ↦
                    let e =
                      only q (subst (λ c. Pending c q) was (v.owned i q (ground (arith, h, f)))) in
                    absurd (ground (arith, e, f))
              ]);
        calm = λ z. at_update (λ j c. Deletes c → ⊥) s.pc i p (λ j d. v.calm z j) quiet;
        agree = λ z.
            at_update (λ j c. (q : ℕ) → Returns c q → (s.g_pool ≡ q) × (q ≢ 0)) s.pc i p
              (λ j d. v.agree z j) (ret z);
        once = λ z.
            Once-update s.g_pool s.hooks s.pc i p (v.once z) (λ h. free (subst Hooks was h)) free';
      }

  -- The first exchange wins.
  pub published-Inv :
      (new : ℕ)
      → s.pc i ≡ exchange new
      → s.g_pool ≡ 0
      → Inv (ran s i (new, hooking new, published new))
  published-Inv new was unset =
      let mine : s.status new ≡ private i =
        v.pending i new (subst (λ c. Pending c new) (sym was) refl) in
      let some : new ≢ 0 = λ z. ground (arith, v.null, mine, z) in
      record {
        here = λ q h. elim (Bool-cases (new == q)) [
          | inl e ↦ (==_iff new q).0 e
          | inr f ↦
              let z = v.here q (ground (arith, h, f)) in
              absurd (ground (arith, v.null, h, f, z, unset))
        ];
        there = λ z. ground arith;
        null = ground (arith, v.null, some);
        pending =
            pending_after (hooking new) new shared (λ j d e. ground (arith, e, mine, d))
              (λ q h. absurd h);
        owned =
            owned_after (hooking new) new shared (λ j d e. ground (arith, e))
              (λ q h. elim (Bool-cases (new == q)) [
                | inl e ↦ absurd (ground (arith, h, e))
                | inr f ↦
                    let e = subst (λ c. Pending c q) was (v.owned i q (ground (arith, h, f))) in
                    absurd (ground (arith, e, f))
              ]);
        calm =
            λ z. at_update (λ j c. Deletes c → ⊥) s.pc i (hooking new) (λ j d. v.calm z j) (λ h. h);
        agree = λ z.
            at_update (λ j c. (q : ℕ) → Returns c q → (new ≡ q) × (q ≢ 0)) s.pc i (hooking new)
              (λ j d q h. let (e, ne) = v.agree z j q h in absurd (ne (sym e ∙ unset)))
              (λ q h. (sym h, λ y. some (sym h ∙ y)));
        once = λ z. elim (v.once z) [
          | inl a ↦ inr (
            ground (arith, a.0, unset),
            some,
            i,
            ground arith,
            at_update (λ j c. Hooks c → j ≡ i) s.pc i (hooking new) (λ j d h. absurd (a.1 j h))
                (λ h. refl),
          )
          | inr a ↦ absurd (a.1 unset)
        ];
      }

  -- The end of the pool.
  pub withdrawn-Inv :
      s.pc i ≡ start_del → s.g_pool ≢ 0 → Inv (ran s i (0, deleting s.g_pool, withdrawn s.g_pool))
  withdrawn-Inv was some =
      let here' = v.there some in
      let busy : s.dels ≢ 0 = λ z. v.calm z i (subst Deletes (sym was) tt) in
      record {
        here = λ q h. elim (Bool-cases (s.g_pool == q)) [
          | inl e ↦ absurd (ground (arith, h, e))
          | inr f ↦ let z = v.here q (ground (arith, h, f)) in absurd (ground (arith, z, f))
        ];
        there = λ z. absurd (z refl);
        null = ground (arith, v.null, some);
        pending =
            pending_after (deleting s.g_pool) s.g_pool (private i)
              (λ j d e. ground (arith, e, here')) (λ q h. ground (arith, h));
        owned =
            owned_after (deleting s.g_pool) s.g_pool (private i) (λ j d e. d (ground (arith, e)))
              (λ q h. elim (Bool-cases (s.g_pool == q)) [
                | inl e ↦ sym ((==_iff s.g_pool q).0 e)
                | inr f ↦ absurd (subst (λ c. Pending c q) was (v.owned i q (ground (arith, h, f))))
              ]);
        calm = λ z. absurd (busy z);
        agree = λ z. absurd (busy z);
        once = λ z. absurd (busy z);
      }
