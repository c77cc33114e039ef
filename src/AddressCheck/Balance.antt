-- ===== src/AddressCheck/Balance.antt =====
-- The check of the address space gives back what it reserves.
use np_alloc.Prelude.{
  ℕ, zero, suc, ◌+◌, ◌*◌, ◌%◌, ◌^◌, ◌==◌, Bool, true, false, List, ◌∷◌, Show, Bool-cases, inl, inr,
  arith, ==_iff,
}
use np_alloc.Mmap.Windows.{Api, Reservations}
use np_alloc.AddressCheck.{
  Messages, get_last_error_as_string, free_failed, commit, check, check_from, check_address_space,
  hint_address, reserve_size,
}

-- Committing, decommitting and asking for a message change nothing of what is reserved.
pub record Quiet (api : Api) (messages : Messages api) (book : Reservations api) : Type 1 where
  pub commits :
      (s : api.State) (l : List ℕ) (address size : ℕ)
      → book.Has s l
      → book.Has (api.alloc_commit s address size).1 l
  pub decommits :
      (s : api.State) (l : List ℕ) (address size : ℕ)
      → book.Has s l
      → book.Has (api.free_decommit s address size).1 l
  pub formats :
      (s : api.State) (l : List ℕ) (id : ℕ)
      → book.Has s l
      → book.Has (messages.format_message s id).2 l
  pub frees :
      (s : api.State) (l : List ℕ) (buffer : ℕ)
      → book.Has s l
      → book.Has (messages.local_free s buffer) l

module _ (api : Api) (messages : Messages api) (show : Show) (book : Reservations api)
    (quiet : Quiet api messages book) where
  open book use {Has}

  message-Has :
      (s : api.State) (l : List ℕ)
      → Has s l
      → Has (get_last_error_as_string api messages show s).1 l
  unfolding get_last_error_as_string
  message-Has s l has = elim (Bool-cases (messages.get_last_error s == 0)) [
    | inl e ↦ rw e has
    | inr e ↦ rw e (
        quiet.frees (messages.format_message s (messages.get_last_error s)).2 l
          (messages.format_message s (messages.get_last_error s)).0
          (quiet.formats s l (messages.get_last_error s) has))
  ]

  free_failed-Has :
      (address : ℕ) (freed : Bool) (s : api.State) (l : List ℕ)
      → Has s l
      → Has (free_failed api messages show address freed s).1 l
  unfolding free_failed
  free_failed-Has address true s l has = has
  free_failed-Has address false s l has = message-Has s l has

  commit-Has :
      (address : ℕ) (s : api.State) (l : List ℕ)
      → Has s l
      → Has (commit api messages show address s).1 l
  unfolding commit
  commit-Has address s l has =
      let t = api.alloc_commit s address 67108864 in
      let has' = quiet.commits s l address 67108864 has in
      elim (Bool-cases (t.0 == 0)) [
        | inl e ↦ rw (e, commit) (message-Has t.1 l has')
        | inr e ↦
            let d = api.free_decommit t.1 t.0 67108864 in
            rw (e, commit)
              (free_failed-Has address d.0 d.1 l (quiet.decommits t.1 l t.0 67108864 has'))
      ]

  check-Has : (i : ℕ) (s : api.State) (l : List ℕ) → Has s l → Has (check api messages show i s).1 l
  unfolding check
  check-Has i s l has =
      let address : ℕ = hint_address * (i + 1) % 2 ^ 64 in
      let size : ℕ = reserve_size in
      let v = api.alloc_reserve s address size in
      elim (Bool-cases (v.0 == 0)) [
        | inl e ↦
            rw (e, check)
              (message-Has v.1 l (book.none_made s l address size has ((==_iff v.0 0).0 e)))
        | inr e ↦
            let has₁ = book.made s l address size has (λ z. ground (arith, e, z)) in
            let s₂ = (get_last_error_as_string api messages show v.1).1 in
            let s₃ = (commit api messages show address s₂).1 in
            let f = api.free_release s₃ v.0 0 in
            rw (e, check)
              (free_failed-Has address f.0 f.1 l (
                book.released s₃ l v.0
                  (commit-Has address s₂ (v.0 ∷ l) (message-Has v.1 (v.0 ∷ l) has₁))))
      ]

  check_from-Has :
      (left i : ℕ) (s : api.State) (l : List ℕ)
      → Has s l
      → Has (check_from api messages show left i s).1 l
  unfolding check_from
  check_from-Has zero i s l has = has
  check_from-Has (suc left) i s l has =
      check_from-Has left (i + 1) (check api messages show i s).1 l (check-Has i s l has)

  -- Whatever `VirtualAlloc` answers at the fifteen addresses, the reservations of the process are
  -- the same after the check as before.
  pub check_address_space-Has :
      (s : api.State) (l : List ℕ) → Has s l → Has (check_address_space api messages show s).1 l
  unfolding check_address_space
  check_address_space-Has s l has = check_from-Has 15 0 s l has
