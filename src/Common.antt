-- ===== src/Common.antt =====
-- src/np_common.h: sizes, and the bit counts of words of 32 and of 64 bits. `__builtin_clzll`,
-- `__builtin_ctzll`, `__builtin_popcountll`, their like for 32 bits and the `_BitScan` intrinsics are modelled as their manuals describe them.
pub mod Counts
use np_alloc.Prelude.{
  ℕ, zero, suc, ◌+◌, ◌-◌, ◌*◌, ◌%◌, ◌^◌, ◌==◌, if◌then◌else◌, true, false, Option, none, some,
}
use np_alloc.Prelude.Bits.{bit}

-- `byte`, `uint32`, `int32`, `uint64`, `int64` and `ull_int`: their widths, and the value of a number
-- that is converted to one of them. A negative number stands as its bit pattern.
pub data IntType : Type 0 where
  byte : IntType
  uint32 : IntType
  int32 : IntType
  uint64 : IntType
  int64 : IntType
  ull_int : IntType

abbrev pub width : IntType → ℕ
width byte = 8
width uint32 = 32
width int32 = 32
width uint64 = 64
width int64 = 64
width ull_int = 64

abbrev pub convert : IntType → ℕ → ℕ
convert t n = n % 2 ^ width t

-- The suffixes `_MB` and `_GB`.
abbrev pub mb : ℕ → ℕ
mb n = n * 1024 * 1024 % 2 ^ 64

abbrev pub gb : ℕ → ℕ
gb n = n * 1024 * 1024 * 1024 % 2 ^ 64

-- The zeros above the highest one of the low `w` bits.
unfoldable pub leading_zeros : (w x : ℕ) → ℕ
leading_zeros zero x = 0
leading_zeros (suc w) x = elim (bit x w == 1) [ true ↦ 0 | false ↦ suc (leading_zeros w x) ]

-- `_BitScanReverse64` and `_BitScanForward64`: the index of the highest and of the lowest one.
unfoldable pub scan_reverse : (w x : ℕ) → Option ℕ
scan_reverse zero x = none
scan_reverse (suc w) x = elim (bit x w == 1) [ true ↦ some w | false ↦ scan_reverse w x ]

unfoldable pub ones : (w x : ℕ) → ℕ
ones zero x = 0
ones (suc w) x = bit x w + ones w x

-- The index of the lowest one, looking upwards from bit `i`.
unfoldable pub scan_forward : (left i x : ℕ) → Option ℕ
scan_forward zero i x = none
scan_forward (suc left) i x = elim (bit x i == 1) [
  | true ↦ some i
  | false ↦ scan_forward left (i + 1) x
]

unfoldable pub trailing_zeros : (left i x : ℕ) → ℕ
trailing_zeros zero i x = 0
trailing_zeros (suc left) i x = elim (bit x i == 1) [
  | true ↦ 0
  | false ↦ suc (trailing_zeros left (i + 1) x)
]

-- The branch for GNU compilers. The built-in functions are not defined at 0.
unfoldable pub clz32 : ℕ → ℕ
clz32 x = if x == 0 then 32 else leading_zeros 32 x

unfoldable pub ctz32 : ℕ → ℕ
ctz32 x = if x == 0 then 32 else trailing_zeros 32 0 x

unfoldable pub clz : ℕ → ℕ
clz x = if x == 0 then 64 else leading_zeros 64 x

unfoldable pub ctz : ℕ → ℕ
ctz x = if x == 0 then 64 else trailing_zeros 64 0 x

unfoldable pub popcnt32 : ℕ → ℕ
popcnt32 x = ones 32 x

-- The result is a `uint32`.
unfoldable pub popcnt : ℕ → ℕ
popcnt x = ones 64 x

-- The branch for Microsoft's compiler.
unfoldable pub clz32_msvc : ℕ → ℕ
clz32_msvc x = elim (scan_reverse 32 x) [ none ↦ 32 | some lz ↦ 31 - lz ]

unfoldable pub clz_msvc : ℕ → ℕ
clz_msvc x = elim (scan_reverse 64 x) [ none ↦ 64 | some lz ↦ 63 - lz ]

unfoldable pub ctz32_msvc : ℕ → ℕ
ctz32_msvc x = elim (scan_forward 32 0 x) [ none ↦ 32 | some tz ↦ tz ]

unfoldable pub ctz_msvc : ℕ → ℕ
ctz_msvc x = elim (scan_forward 64 0 x) [ none ↦ 64 | some tz ↦ tz ]

-- `__popcnt` and `__popcnt64`
unfoldable pub popcnt32_msvc : ℕ → ℕ
popcnt32_msvc x = ones 32 x

unfoldable pub popcnt_msvc : ℕ → ℕ
popcnt_msvc x = ones 64 x

-- `sizeof(x) * 8 - clz(x) - 1`, which wraps at 0.
unfoldable pub log2 : ℕ → ℕ
log2 x = (64 + 2 ^ 64 - clz x - 1) % 2 ^ 64

-- The calls behind `aligned_alloc` and `aligned_free`: `posix_memalign` gives an error code and the
-- pointer that it stores.
pub record AlignedHeap : Type 1 where
  pub State : Type 0
  pub posix_memalign : State → (alignment size : ℕ) → ℕ × ℕ × State
  pub free : State → ℕ → State
  pub aligned_malloc : State → (size alignment : ℕ) → ℕ × State  -- `_aligned_malloc`
  pub aligned_free_call : State → ℕ → State  -- `_aligned_free`

unfoldable pub aligned_alloc :
    (heap : AlignedHeap) → heap.State → (alignment size : ℕ) → ℕ × heap.State
aligned_alloc heap s alignment size =
    let (error, ptr, s') = heap.posix_memalign s alignment size in
    if error == 0 then (ptr, s') else (0, s')

unfoldable pub aligned_free : (heap : AlignedHeap) → heap.State → ℕ → heap.State
aligned_free heap s ptr = heap.free s ptr

unfoldable pub aligned_alloc_msvc :
    (heap : AlignedHeap) → heap.State → (alignment size : ℕ) → ℕ × heap.State
aligned_alloc_msvc heap s alignment size = heap.aligned_malloc s size alignment

unfoldable pub aligned_free_msvc : (heap : AlignedHeap) → heap.State → ℕ → heap.State
aligned_free_msvc heap s ptr = heap.aligned_free_call s ptr

-- The compilers that src/np_common.h knows.
pub data Branch : Type 0 where
  gnu : Branch
  msvc : Branch

-- The functions that it defines for each of them; any other compiler is an error.
pub record BitCounts : Type 0 where
  pub clz32_of : ℕ → ℕ
  pub ctz32_of : ℕ → ℕ
  pub clz_of : ℕ → ℕ
  pub ctz_of : ℕ → ℕ
  pub popcnt32_of : ℕ → ℕ
  pub popcnt_of : ℕ → ℕ

unfoldable pub bit_counts : Branch → BitCounts
bit_counts gnu = record {
  clz32_of = clz32;
  ctz32_of = ctz32;
  clz_of = clz;
  ctz_of = ctz;
  popcnt32_of = popcnt32;
  popcnt_of = popcnt;
}
bit_counts msvc = record {
  clz32_of = clz32_msvc;
  ctz32_of = ctz32_msvc;
  clz_of = clz_msvc;
  ctz_of = ctz_msvc;
  popcnt32_of = popcnt32_msvc;
  popcnt_of = popcnt_msvc;
}
