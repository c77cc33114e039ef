-- ===== src/Process/Table.antt =====
-- A thread's pools, where one of them changes.
use np_alloc.Prelude.{
  ℕ, zero, suc, ◌*◌, ◌<◌, ◌≡◌, ◌≢◌, ◌==◌, refl, ap, sym, ◌∙◌, true, false, List, [], ◌∷◌, Option,
  some, length, get_elem?, set, arith, inl, inr, Bool-cases, ==_iff, dec_lt, ℕ_discrete,
}
use np_alloc.LfStack.{update}
use np_alloc.TlsPsPool.{TlsPool}
use np_alloc.TlsPsPool.Blocks.{next_index}
use np_alloc.ThreadLocalPool.{ThreadPool}
use np_alloc.Process.{number, IsThread}

pub get_elem?-length {ℓ} :
    {A : Type ℓ} (l : List A) (i : ℕ) (a : A) → get_elem? l i ≡ some a → i < length l
get_elem?-length [] i a e = absurd (cc)
get_elem?-length (x ∷ l) zero a e = omega arith
get_elem?-length (x ∷ l) (suc i) a e = omega (arith, get_elem?-length l i a e)

pub get_elem?-set {ℓ} :
    {A : Type ℓ} (l : List A) (i : ℕ) (a b : A)
    → get_elem? l i ≡ some a
    → get_elem? (set l i b) i ≡ some b
get_elem?-set [] i a b e = absurd (cc)
get_elem?-set (x ∷ l) zero a b e = refl
get_elem?-set (x ∷ l) (suc i) a b e = get_elem?-set l i a b e

pub get_elem?-set_other {ℓ} :
    {A : Type ℓ} (l : List A) (i j : ℕ) (b : A) → i ≢ j → get_elem? (set l i b) j ≡ get_elem? l j
get_elem?-set_other [] i j b ne = refl
get_elem?-set_other (x ∷ l) zero zero b ne = absurd (ne refl)
get_elem?-set_other (x ∷ l) zero (suc j) b ne = refl
get_elem?-set_other (x ∷ l) (suc i) zero b ne = refl
get_elem?-set_other (x ∷ l) (suc i) (suc j) b ne = get_elem?-set_other l i j b (λ e. ne (ap suc e))

-- Pools of two threads, or two of one, have different numbers.
pub number_injective :
    (n k k' i i' : ℕ) → i < n → i' < n → number n k i ≡ number n k' i' → (k ≡ k') × (i ≡ i')
number_injective n k k' i i' lt lt' e = elim (dec_lt k k') [
  | yes below ↦ absurd (omega (arith, next_index k k' n below))
  | no above ↦ elim (dec_lt k' k) [
    | yes below ↦ absurd (omega (arith, next_index k' k n below))
    | no above' ↦
        let same : k ≡ k' = omega arith in (same, omega (arith, ap (λ (x : ℕ). x * n) same))
  ]
]

-- Pool `i` of thread `k` is `t` from now on, with blocks of the size that it had.
pub update-IsThread :
    (sizes : List ℕ) (table : ℕ → Option ℕ) (max : ℕ) (pools : ℕ → TlsPool)
    (threads : ℕ → ThreadPool) (k i size : ℕ) (t : TlsPool)
    → get_elem? sizes i ≡ some size
    → t.alloc_size ≡ (pools (number (length sizes) k i)).alloc_size
    → ((j : ℕ) → IsThread sizes table max pools j (threads j))
    → (j : ℕ)
    → IsThread sizes table max
        (update pools (number (length sizes) k i) t)
        j
        (update threads k (record (threads k) { tls_pool = set (threads k).tls_pool i t }) j)
update-IsThread sizes table max pools threads k i size t at same old j =
    elim (Bool-cases (k == j)) [
      | inl e ↦
          let one : k ≡ j = (==_iff k j).0 e in
          rw (e, ← one)
            (record { same_table = (old k).same_table; same_max = (old k).same_max; pool = own })
      | inr e ↦ rw e (record {
        same_table = (old j).same_table;
        same_max = (old j).same_max;
        pool = λ i' size' at'.
            rw (others j i' size' at' (λ z. ground (arith, z, e))) ((old j).pool i' size' at');
      })
    ]
  where
    others :
        (j i' size' : ℕ)
        → get_elem? sizes i' ≡ some size'
        → (k ≡ j → i ≢ i')
        → (number (length sizes) k i == number (length sizes) j i') ≡ false
    others j i' size' at' ne =
        elim (Bool-cases (number (length sizes) k i == number (length sizes) j i')) [
          | inl e ↦
              let (a, b) =
                number_injective (length sizes) k j i i' (get_elem?-length sizes i size at)
                  (get_elem?-length sizes i' size' at')
                  ((==_iff (number (length sizes) k i) (number (length sizes) j i')).0 e) in
              absurd (ne a b)
          | inr f ↦ f
        ]

    own :
        (i' size' : ℕ)
        → get_elem? sizes i' ≡ some size'
        → (get_elem? (set (threads k).tls_pool i t) i'
            ≡ some (update pools (number (length sizes) k i) t (number (length sizes) k i')))
          × ((update pools (number (length sizes) k i) t (number (length sizes) k i')).alloc_size
              ≡ size')
    own i' size' at' = elim (ℕ_discrete i i') [
      | yes e ↦
          let self : (number (length sizes) k i == number (length sizes) k i) ≡ true =
            ground arith in
          let (was, sized) = (old k).pool i size at in
          let agree : some size ≡ some size' = sym at ∙ ap (get_elem? sizes) e ∙ at' in
          rw (← e, self)
            (get_elem?-set (threads k).tls_pool i _ t was, same ∙ sized ∙ ground (arith, agree))
      | no ne ↦
          rw (others k i' size' at' (λ z. ne), get_elem?-set_other (threads k).tls_pool i i' t ne)
            ((old k).pool i' size' at')
    ]
