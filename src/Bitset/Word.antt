-- ===== src/Bitset/Word.antt =====
-- `bitset<64>`. The word is the value of `bits_`, below `2 ^ 64`; positions count from the highest
-- bit and are below 64.
pub mod Laws
pub mod First
pub mod Cursor
use np_alloc.Prelude.{
  ℕ, ◌+◌, ◌-◌, ◌*◌, ◌/◌, ◌%◌, ◌^◌, ◌==◌, Bool, ltb, bit_and, bit_or, if◌then◌else◌,
}
use np_alloc.Common.{clz, popcnt}

-- `1ll << (63 - pos)`, as a `uint64`.
abbrev pub mask : ℕ → ℕ
mask pos = 2 ^ (63 - pos)

abbrev pub all_ones : ℕ
all_ones = 2 ^ 64 - 1

-- The constructor and `get_raw_bits`.
unfoldable pub create : ℕ → ℕ
create b = b

unfoldable pub get_raw_bits : ℕ → ℕ
get_raw_bits bits = bits

-- `operator==`
unfoldable pub equal : ℕ → ℕ → Bool
equal bits r = get_raw_bits bits == get_raw_bits r

unfoldable pub get_frist : ℕ → ℕ
get_frist bits = if bits == 0 then 64 else clz bits

unfoldable pub get : ℕ → ℕ → Bool
get bits pos = ltb 0 (bit_and bits (mask pos))

unfoldable pub set : ℕ → ℕ → ℕ
set bits pos = bit_or bits (mask pos)

-- `~m` is `all_ones - m`. The result says whether no bit is left.
unfoldable pub clear : ℕ → ℕ → ℕ × Bool
clear bits pos = let left = bit_and bits (all_ones - mask pos) in (left, left == 0)

unfoldable pub count : ℕ → ℕ
count bits = popcnt bits

unfoldable pub set_all : ℕ → ℕ
set_all bits = all_ones

unfoldable pub clear_all : ℕ → ℕ
clear_all bits = 0

-- `iterator::next`, from a position below 64. `pos_` is a byte.
unfoldable pub next : ℕ → ℕ → ℕ
next bits pos =
    let p = (pos + 1) % 256 in
    if p == 64 then p else get_frist (bits * 2 ^ p % 2 ^ 64 / 2 ^ p) % 256
