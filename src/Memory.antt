-- ===== src/Memory.antt =====
-- Byte-addressed memory, and the little-endian loads and stores that the pools make through their
-- pointers.
use np_alloc.Prelude.{
  ℕ, zero, suc, ◌+◌, ◌*◌, ◌/◌, ◌%◌, ◌^◌, ◌≤◌, ◌<◌, ◌==◌, ◌≡◌, ◌⊎◌, inl, refl, ◌∙◌, arith,
  if◌then◌else◌, ℕ_discrete,
}
use native.Mathlib.Nat.{pow-suc}

-- Each cell is a byte.
abbrev pub Memory : Type 0
Memory = ℕ → ℕ

unfoldable pub write : (bytes : ℕ) → Memory → (address value : ℕ) → Memory
write zero m a v = m
write (suc n) m a v = write n (λ x. if a == x then v % 256 else m x) (a + 1) (v / 256)

unfoldable pub read : (bytes : ℕ) → Memory → (address : ℕ) → ℕ
read zero m a = 0
read (suc n) m a = m a + 256 * read n m (a + 1)

-- Fields of eight and of two bytes.
unfoldable pub write64 : Memory → ℕ → ℕ → Memory
unfolding write
write64 m a v = write 8 m a v

unfoldable pub read64 : Memory → ℕ → ℕ
unfolding read
read64 m a = read 8 m a

unfoldable pub write16 : Memory → ℕ → ℕ → Memory
unfolding write
write16 m a v = write 2 m a v

unfoldable pub read16 : Memory → ℕ → ℕ
unfolding read
read16 m a = read 2 m a

-- A store changes only the bytes that it covers.
pub write-frame : (n : ℕ) (m : Memory) (a v x : ℕ) → (x < a) ⊎ (a + n ≤ x) → write n m a v x ≡ m x
unfolding write
write-frame zero m a v x apart = refl
write-frame (suc n) m a v x apart =
    write-frame n (λ y. if a == y then v % 256 else m y) (a + 1) (v / 256) x (omega arith)
    ∙ ground arith

pub read-frame :
    (n : ℕ) (m m' : Memory) (a : ℕ)
    → ((x : ℕ) → a ≤ x → x < a + n → m' x ≡ m x)
    → read n m' a ≡ read n m a
unfolding read
read-frame zero m m' a same = refl
read-frame (suc n) m m' a same = omega (
  arith,
  same a (omega arith) (omega arith),
  read-frame n m m' (a + 1) (λ x lo hi. same x (omega arith) (omega arith)),
)

pub read-write_self : (n : ℕ) (m : Memory) (a v : ℕ) → v < 256 ^ n → read n (write n m a v) a ≡ v
unfolding read write
read-write_self zero m a v small = omega arith
read-write_self (suc n) m a v small = omega (
  arith,
  write-frame n (λ y. if a == y then v % 256 else m y) (a + 1) (v / 256) a (inl (omega arith)),
  read-write_self n (λ y. if a == y then v % 256 else m y) (a + 1) (v / 256)
      (omega (arith, pow-suc 256 n)),
  first,
)
  where
    first : (if a == a then v % 256 else m a) ≡ v % 256
    first = ground arith

pub read-write_apart :
    (n k : ℕ) (m : Memory) (a b v : ℕ)
    → (a + n ≤ b) ⊎ (b + k ≤ a)
    → read n (write k m b v) a ≡ read n m a
read-write_apart n k m a b v apart =
    read-frame n m (write k m b v) a λ x lo hi. write-frame k m b v x (omega arith)

pub read64-write64 : (m : Memory) (a v : ℕ) → v < 2 ^ 64 → read64 (write64 m a v) a ≡ v
unfolding read64 write64
read64-write64 m a v small = read-write_self 8 m a v (omega arith)

pub read64-write64_apart :
    (m : Memory) (a b v : ℕ) → (a + 8 ≤ b) ⊎ (b + 8 ≤ a) → read64 (write64 m b v) a ≡ read64 m a
unfolding read64 write64
read64-write64_apart m a b v apart = read-write_apart 8 8 m a b v apart

pub write64-frame : (m : Memory) (a v x : ℕ) → (x < a) ⊎ (a + 8 ≤ x) → write64 m a v x ≡ m x
unfolding write64
write64-frame m a v x apart = write-frame 8 m a v x apart

pub read64-write16_apart :
    (m : Memory) (a b v : ℕ) → (a + 8 ≤ b) ⊎ (b + 2 ≤ a) → read64 (write16 m b v) a ≡ read64 m a
unfolding read64 write16
read64-write16_apart m a b v apart = read-write_apart 8 2 m a b v apart

-- What is read depends on the eight bytes alone.
pub read64-frame :
    (m m' : Memory) (a : ℕ) → ((x : ℕ) → a ≤ x → x < a + 8 → m' x ≡ m x) → read64 m' a ≡ read64 m a
unfolding read64
read64-frame m m' a same = read-frame 8 m m' a same

pub write16-frame : (m : Memory) (a v x : ℕ) → (x < a) ⊎ (a + 2 ≤ x) → write16 m a v x ≡ m x
unfolding write16
write16-frame m a v x apart = write-frame 2 m a v x apart

-- Every cell holds a byte.
abbrev pub IsBytes : Memory → Type 0
IsBytes m = (x : ℕ) → m x < 256

write-IsBytes : (n : ℕ) (m : Memory) (a v : ℕ) → IsBytes m → IsBytes (write n m a v)
unfolding write
write-IsBytes zero m a v small = small
write-IsBytes (suc n) m a v small =
    write-IsBytes n (λ x. if a == x then v % 256 else m x) (a + 1) (v / 256)
      (λ x. ground (arith, small x))

pub write64-IsBytes : (m : Memory) (a v : ℕ) → IsBytes m → IsBytes (write64 m a v)
unfolding write64
write64-IsBytes m a v small = write-IsBytes 8 m a v small

pub write16-IsBytes : (m : Memory) (a v : ℕ) → IsBytes m → IsBytes (write16 m a v)
unfolding write16
write16-IsBytes m a v small = write-IsBytes 2 m a v small

read-injective :
    (n : ℕ) (m m' : Memory) (a x : ℕ)
    → IsBytes m
    → IsBytes m'
    → read n m' a ≡ read n m a
    → a ≤ x
    → x < a + n
    → m' x ≡ m x
unfolding read
read-injective zero m m' a x b b' e lo hi = absurd (omega arith)
read-injective (suc n) m m' a x b b' e lo hi = elim (ℕ_discrete a x) [
  | yes same ↦ rw (← same) (omega (arith, b a, b' a))
  | no other ↦
      read-injective n m m' (a + 1) x b b' (omega (arith, b a, b' a)) (omega arith) (omega arith)
]

-- Bytes that are read as the same word are the same.
pub read64-injective :
    (m m' : Memory) (a x : ℕ)
    → IsBytes m
    → IsBytes m'
    → read64 m' a ≡ read64 m a
    → a ≤ x
    → x < a + 8
    → m' x ≡ m x
unfolding read64
read64-injective m m' a x b b' e lo hi = read-injective 8 m m' a x b b' e lo hi
