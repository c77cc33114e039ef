-- ===== src/Util/Contract.antt =====
-- What src/util.h declares, with what it promises, for a client that does not know the code.
use np_alloc.Prelude.{ℕ, ◌*◌, ◌<◌, ◌≡◌, ap, sym, ◌∙◌, Bool, true, List, length, All}
use np_alloc.Util.{
  Clock, is_hexstring, binary_to_hexstring, hexstring_to_binary, tab_strings, time_since_epoch,
}
use np_alloc.Util.Hex.{hexstring_to_binary-binary_to_hexstring}

-- The functions.
pub record UtilFunctions : Type 1 where
  pub is_hex : List ℕ → Bool
  pub to_hex : List ℕ → List ℕ
  pub to_binary : List ℕ → List ℕ
  pub tab_lines_of : List ℕ → List ℕ
  pub now : Clock → ℕ

abbrev pub util_functions : UtilFunctions
util_functions = record {
  is_hex = is_hexstring;
  to_hex = binary_to_hexstring;
  to_binary = hexstring_to_binary;
  tab_lines_of = tab_strings;
  now = time_since_epoch;
}

abbrev pub Bytes : List ℕ → Type 0
Bytes bin = All (λ b. b < 256) bin

-- The text of bytes is hexadecimal, has two characters for each, and stands for them.
pub record HexContract (f : UtilFunctions) : Type 0 where
  pub size : (bin : List ℕ) → Bytes bin → length (f.to_hex bin) ≡ 2 * length bin
  pub valid : (bin : List ℕ) → Bytes bin → f.is_hex (f.to_hex bin) ≡ true
  pub back : (bin : List ℕ) → Bytes bin → f.to_binary (f.to_hex bin) ≡ bin

-- The code keeps the contract.
pub util-HexContract : HexContract util_functions
util-HexContract = record {
  size = λ bin small. (hexstring_to_binary-binary_to_hexstring bin small).0;
  valid = λ bin small. (hexstring_to_binary-binary_to_hexstring bin small).1;
  back = λ bin small. (hexstring_to_binary-binary_to_hexstring bin small).2;
}

module _ (f : UtilFunctions) (contract : HexContract f) where
  -- Under the contract different bytes have different texts.
  pub to_hex-injective :
      (bin bin' : List ℕ) → Bytes bin → Bytes bin' → f.to_hex bin ≡ f.to_hex bin' → bin ≡ bin'
  to_hex-injective bin bin' small small' e =
      sym (contract.back bin small) ∙ ap f.to_binary e ∙ contract.back bin' small'
