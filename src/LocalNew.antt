-- ===== src/LocalNew.antt =====
-- src/local_new.h: objects on memory of `malloc` and of `aligned_alloc`, so that no operator `new` of
-- the program is called. The heap is a parameter, and so are the constructor and the destructor.
use np_alloc.Prelude.{
  ℕ, ◌==◌, ◌≡◌, ◌≢◌, refl, List, ◌∷◌, if◌then◌else◌, Bool-cases, inl, inr, arith, ==_iff, ◌⊎◌,
}
use np_alloc.Mmap.{Result, ok, fault}

-- What the functions use of the heap, and the object's class `T`.
pub record Class : Type 1 where
  pub State : Type 0
  pub malloc : State → (size : ℕ) → ℕ × State
  pub free : State → ℕ → State
  pub aligned_alloc : State → (alignment size : ℕ) → ℕ × State
  pub aligned_free : State → ℕ → State
  pub sizeof : ℕ
  pub construct : State → ℕ → State
  pub destruct : State → ℕ → State

module _ (class : Class) where
  open class use {State, malloc, free, aligned_alloc, aligned_free, sizeof, construct, destruct}

  -- Placement `new` where there is no test for null.
  abbrev pub new_at : ℕ × State → Result (ℕ × State)
  new_at (t, s) = if t == 0 then fault else ok (t, construct s t)

  unfoldable pub t_new : State → Result (ℕ × State)
  t_new s = new_at (malloc s sizeof)

  unfoldable pub t_delete : State → ℕ → State
  t_delete s t = free (destruct s t) t

  unfoldable pub t_aligned_new : State → (aligned_size : ℕ) → Result (ℕ × State)
  t_aligned_new s aligned_size = new_at (aligned_alloc s aligned_size sizeof)

  unfoldable pub t_aligned_delete : State → ℕ → State
  t_aligned_delete s t = aligned_free (destruct s t) t

-- A way to say which blocks of the two heaps are in use; constructors and destructors do not change
-- it.
pub record Blocks (class : Class) : Type 1 where
  pub Has : class.State → (plain aligned : List ℕ) → Type 0
  pub given :
      (s : class.State) (l k : List ℕ) (size : ℕ)
      → Has s l k
      → (class.malloc s size).0 ≢ 0
      → Has (class.malloc s size).1 ((class.malloc s size).0 ∷ l) k
  pub given_aligned :
      (s : class.State) (l k : List ℕ) (alignment size : ℕ)
      → Has s l k
      → (class.aligned_alloc s alignment size).0 ≢ 0
      → Has
          (class.aligned_alloc s alignment size).1
          l
          ((class.aligned_alloc s alignment size).0 ∷ k)
  pub taken : (s : class.State) (l k : List ℕ) (p : ℕ) → Has s (p ∷ l) k → Has (class.free s p) l k
  pub taken_aligned :
      (s : class.State) (l k : List ℕ) (p : ℕ) → Has s l (p ∷ k) → Has (class.aligned_free s p) l k
  pub constructs :
      (s : class.State) (l k : List ℕ) (p : ℕ) → Has s l k → Has (class.construct s p) l k
  pub destructs :
      (s : class.State) (l k : List ℕ) (p : ℕ) → Has s l k → Has (class.destruct s p) l k

module _ (class : Class) (blocks : Blocks class) where
  open blocks use {Has, given, given_aligned, taken, taken_aligned, constructs, destructs}

  -- What `new` leaves, where `got` is what the heap gave: an object that stands in the books, and
  -- that `delete` takes out of them; or a constructor that is called on a null pointer.
  abbrev pub Creates :
      (Books Emptied : ℕ → class.State → Type 0) → (got : ℕ) → Result (ℕ × class.State) → Type 0
  Creates Books Emptied got r =
      ((t : ℕ) × (s' : class.State) × (r ≡ ok (t, s')) × Books t s' × Emptied t s')
      ⊎ ((r ≡ fault) × (got ≡ 0))

  -- `t_new` gives a block of `malloc`, which `t_delete` gives back to `free`, and `t_aligned_new` one
  -- of `aligned_alloc`, which `t_aligned_delete` gives back to `aligned_free`; where the heap has no
  -- memory left, the constructor is called on a null pointer.
  pub t_delete-t_new :
      (s : class.State) (l k : List ℕ) (aligned_size : ℕ)
      → Has s l k
      → Creates
          (λ t s'. Has s' (t ∷ l) k)
          (λ t s'. Has (t_delete class s' t) l k)
          (class.malloc s class.sizeof).0
          (t_new class s)
        × Creates
            (λ t s'. Has s' l (t ∷ k))
            (λ t s'. Has (t_aligned_delete class s' t) l k)
            (class.aligned_alloc s aligned_size class.sizeof).0
            (t_aligned_new class s aligned_size)
  unfolding t_new t_delete t_aligned_new t_aligned_delete
  t_delete-t_new s l k aligned_size has =
      let a = class.malloc s class.sizeof in
      let b = class.aligned_alloc s aligned_size class.sizeof in
      (
        elim (Bool-cases (a.0 == 0)) [
          | inl e ↦ inr (rw e refl, (==_iff a.0 0).0 e)
          | inr e ↦
              let h =
                constructs a.1 (a.0 ∷ l) k a.0
                  (given s l k class.sizeof has (λ z. ground (arith, e, z))) in
              let s' = class.construct a.1 a.0 in
              inl (
                a.0,
                s',
                rw e refl,
                h,
                taken (class.destruct s' a.0) l k a.0 (destructs s' (a.0 ∷ l) k a.0 h),
              )
        ],
        elim (Bool-cases (b.0 == 0)) [
          | inl e ↦ inr (rw e refl, (==_iff b.0 0).0 e)
          | inr e ↦
              let h =
                constructs b.1 l (b.0 ∷ k) b.0
                  (given_aligned s l k aligned_size class.sizeof has (λ z. ground (arith, e, z))) in
              let s' = class.construct b.1 b.0 in
              inl (
                b.0,
                s',
                rw e refl,
                h,
                taken_aligned (class.destruct s' b.0) l k b.0 (destructs s' l (b.0 ∷ k) b.0 h),
              )
        ],
      )
