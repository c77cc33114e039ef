-- ===== src/Bitset/Contract.antt =====
-- What src/np_bitset.h promises of both its classes: a set of the positions below its size. `none`
-- is a failed assertion.
use np_alloc.Prelude.{
  ℕ, ◌+◌, ◌^◌, ◌≤◌, ◌<◌, ◌≡◌, ◌==◌, ◌↔◌, refl, Bool, true, false, Option, some, if◌then◌else◌,
  arith, Bool-cases, inl, inr, ltb,
}
use np_alloc.Bitset.Word
use np_alloc.Bitset.Word.Laws.{get-set, get-clear, set-lt, clear-lt}
use np_alloc.Bitset.Word.First.{IsNext, get_frist_lem, next_lem, clear_empty}
use np_alloc.Bitset.Large.{Bitset}
use np_alloc.Bitset.Large
use np_alloc.Bitset.Large.Summary.{IsSummary, holds, get_lem}
use np_alloc.Bitset.Large.Laws.{set-IsSummary, clear-IsSummary}
use np_alloc.Bitset.Large.First.{get_frist-IsNext, next-IsNext}

-- The member functions of one of the classes.
pub record SetFunctions : Type 1 where
  pub State : Type 0
  pub size : ℕ
  pub get : State → ℕ → Option Bool
  pub set : State → ℕ → Option State
  pub clear : State → ℕ → Option (State × Bool)
  pub get_frist : State → Option ℕ
  pub next : State → ℕ → Option ℕ

abbrev pub word_functions : SetFunctions
word_functions = record {
  State = ℕ;
  size = 64;
  get = λ b p. some (Word.get b p);
  set = λ b p. some (Word.set b p);
  clear = λ b p. some (Word.clear b p);
  get_frist = λ b. some (Word.get_frist b);
  next = λ b p. some (Word.next b p);
}

abbrev pub large_functions : ℕ → SetFunctions
large_functions size = record {
  State = Bitset;
  size = size;
  get = Large.get size;
  set = Large.set size;
  clear = Large.clear size;
  get_frist = Large.get_frist size;
  next = Large.next size;
}

-- The set that a state stands for, and what the functions do to it.
pub record SetContract (f : SetFunctions) : Type 1 where
  pub Ok : f.State → Type 0
  pub member : f.State → ℕ → Bool
  pub get_law : (s : f.State) (p : ℕ) → Ok s → p < f.size → f.get s p ≡ some (member s p)
  pub set_law :
      (s : f.State) (p : ℕ)
      → Ok s
      → p < f.size
      → (s' : f.State) × (f.set s p ≡ some s')
        × Ok s'
        × ((q : ℕ) → q < f.size → member s' q ≡ (if p == q then true else member s q))
  pub clear_law :
      (s : f.State) (p : ℕ)
      → Ok s
      → p < f.size
      → (s' : f.State) × (none_left : Bool) × (f.clear s p ≡ some (s', none_left))
        × Ok s'
        × ((q : ℕ) → q < f.size → member s' q ≡ (if p == q then false else member s q))
        × ((none_left ≡ true) ↔ ((q : ℕ) → q < f.size → member s' q ≡ false))
  pub first_law :
      (s : f.State) → Ok s → (r : ℕ) × (f.get_frist s ≡ some r) × IsNext (member s) 0 f.size r
  pub next_law :
      (s : f.State) (p : ℕ)
      → Ok s
      → p < f.size
      → (r : ℕ) × (f.next s p ≡ some r) × IsNext (member s) (p + 1) f.size r

-- `bitset<64>` keeps the contract.
pub word-SetContract : SetContract word_functions
word-SetContract = record {
  Ok = λ b. b < 2 ^ 64;
  member = Word.get;
  get_law = λ b p small lt. refl;
  set_law =
      λ b p small lt. (Word.set b p, refl, set-lt b p small, λ q lt'. get-set b p q small lt lt');
  clear_law = λ b p small lt. (
    (Word.clear b p).0,
    (Word.clear b p).1,
    refl,
    clear-lt b p small,
    (λ q lt'. get-clear b p q small lt lt'),
    clear_empty b p small,
  );
  first_law = λ b small. (Word.get_frist b, refl, get_frist_lem b small);
  next_law = λ b p small lt. (Word.next b p, refl, next_lem b p small lt);
}

-- `bitset<TSize>` keeps it too, for every size.
pub large-SetContract : (size : ℕ) → SetContract (large_functions size)
large-SetContract size = record {
  Ok = IsSummary size;
  member = holds;
  get_law = λ b p v lt. get_lem size p b v lt;
  set_law =
      λ b p v lt. let (b', run, v', on) = set-IsSummary v p lt in (b', run, v', λ q lt'. on q);
  clear_law = λ b p v lt.
      let (b', none_left, run, v', off, flag) = clear-IsSummary v p lt in
      (
        b',
        none_left,
        run,
        v',
        (λ q lt'. off q),
        (
          (λ e q lt'. flag.0 e q),
          λ h. flag.1 (λ q. elim (Bool-cases (ltb q size)) [
            | inl low ↦ h q (ground (arith, low))
            | inr high ↦ v'.inside q (ground (arith, high))
          ]),
        ),
      );
  first_law = λ b v. get_frist-IsNext v;
  next_law = λ b p v lt. next-IsNext v p lt;
}

module _ (f : SetFunctions) (contract : SetContract f) where
  open contract use {Ok, set_law, first_law}

  -- Under the contract the first member, after a position has been set, is not behind that position.
  pub get_frist-set :
      (s : f.State) (p : ℕ)
      → Ok s
      → p < f.size
      → (s' : f.State) × (r : ℕ) × (f.set s p ≡ some s') × (f.get_frist s' ≡ some r) × (r ≤ p)
  get_frist-set s p v lt =
      let (s', run, v', on) = set_law s p v lt in
      let (r, first, n) = first_law s' v' in
      (s', r, run, first, ground (arith, on p lt, n.skipped p))
