-- ===== src/AddressCheck.antt =====
-- np_alloc_test/main.cpp: the program that tries which parts of the address space Windows lets a
-- process reserve. The calls of Windows, of `np_alloc` and of `general_test` are parameters.
pub mod Balance
use np_alloc.Prelude.{
  ℕ, zero, suc, ◌+◌, ◌*◌, ◌%◌, ◌^◌, ◌==◌, Bool, true, false, not, List, [], ◌∷◌, ◌++◌, Text, codes,
  Show, if◌then◌else◌,
}
use np_alloc.Common.{mb, gb}
use np_alloc.Mmap.Windows.{Api}

-- `GetLastError`, `FormatMessageA`, which allocates a buffer for the text, and `LocalFree`.
pub record Messages (api : Api) : Type 1 where
  pub get_last_error : api.State → ℕ
  pub format_message : api.State → (id : ℕ) → ℕ × Text × api.State
  pub local_free : api.State → (buffer : ℕ) → api.State

abbrev pub reserve_size : ℕ
reserve_size = gb 1024

abbrev pub hint_address : ℕ
hint_address = 0x10000000000

module _ (api : Api) (messages : Messages api) (show : Show) where
  open messages use {get_last_error, format_message, local_free}

  unfoldable pub get_last_error_as_string : api.State → Text × api.State
  get_last_error_as_string s =
      let id = get_last_error s in
      let (buffer, message, s') = format_message s id in
      if id == 0 then ([], s) else (message, local_free s' buffer)

  abbrev pub line : (address : ℕ) → Text → Text
  line address text = codes "addr[" ++ show true 0 address ++ codes "]; " ++ text

  -- `VirtualFree` and the message for its failure.
  unfoldable pub free_failed : (address : ℕ) → (freed : Bool) → api.State → List Text × api.State
  free_failed address true s = ([], s)
  free_failed address false s =
      let (text, s') = get_last_error_as_string s in
      (line address (codes "VirtualFree failed - " ++ text) ∷ [], s')

  -- Commit 64 MB at the address, and give them back.
  unfoldable pub commit : (address : ℕ) → api.State → List Text × api.State
  unfolding free_failed
  commit address s =
      let (t, s') = api.alloc_commit s address (mb 64) in
      elim (t == 0) [
        | false ↦ let (freed, s'') = api.free_decommit s' t (mb 64) in free_failed address freed s''
        | true ↦
            let (text, s'') = get_last_error_as_string s' in
            (line address (codes "commit failed - " ++ text ++ codes "\n") ∷ [], s'')
      ]

  -- One round: the lines that are printed.
  unfoldable pub check : (i : ℕ) → api.State → List Text × api.State
  unfolding free_failed commit
  check i s =
      let address = hint_address * (i + 1) % 2 ^ 64 in
      let (v, s₁) = api.alloc_reserve s address reserve_size in
      let (text, s₂) = get_last_error_as_string s₁ in
      elim (v == 0) [
        | true ↦ (line address (codes "failed - " ++ text) ∷ [], s₂)
        | false ↦
            let (out, s₃) = commit address s₂ in
            let (freed, s₄) = api.free_release s₃ v 0 in
            let (out', s₅) = free_failed address freed s₄ in
            (line address (codes "ok\n") ∷ out ++ out', s₅)
      ]

  unfoldable pub check_from : (left i : ℕ) → api.State → List Text × api.State
  check_from zero i s = ([], s)
  check_from (suc left) i s =
      let (out, s') = check i s in
      let (out', s'') = check_from left (i + 1) s' in (out ++ out', s'')

  unfoldable pub check_address_space : api.State → List Text × api.State
  check_address_space s = check_from 15 0 s

  -- `__test`: two checks, and one allocation that is freed. `GetSystemInfo` is called for nothing.
  unfoldable pub test :
      (np_alloc : api.State → (bytes : ℕ) → ℕ × api.State)
      → (np_free : api.State → ℕ → api.State) → api.State
      → List Text × api.State
  test np_alloc np_free s =
      let (out, s₁) = check_address_space s in
      let (out', s₂) = check_address_space s₁ in
      let (p, s₃) = np_alloc s₂ 100 in (out ++ out', np_free s₃ p)

  -- `main`: `general_test` only.
  unfoldable pub main : (general_test : api.State → api.State) → api.State → api.State
  main general_test s = general_test s
