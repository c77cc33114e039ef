-- ===== src/Platform.antt =====
-- src/platform.h and np_alloc_test/platform.h: what the headers define for each compiler.
use np_alloc.Prelude.{
  ℕ, leb, Bool, true, false, Option, none, some, Text, codes, List, [], ◌∷◌, ◌++◌, ◌≡◌, refl,
  if◌then◌else◌,
}

-- `_MSC_VER` with its value, `__GNUC__`, or neither.
pub data Compiler : Type 0 where
  msvc : (version : ℕ) → Compiler
  gnu : Compiler
  unknown : Compiler

-- `COMPILER_MSVC_VERSION`, `__COMPILER_NAME` and `USE_CPP_17`.
pub record Defines : Type 0 where
  pub msvc_version : Option ℕ
  pub name : Text
  pub cpp_17 : Bool

unfoldable pub msvc_defines : (version : ℕ) → Defines
msvc_defines v =
    if leb 1914 v
    then record {
      msvc_version = some 1414;
      name = codes "MSVC++ 14.14 (VS2017 15.7)";
      cpp_17 = true;
    }
    else if leb 1910 v
    then record { msvc_version = some 1410; name = codes "MSVC++ 14.1 (VS2017)"; cpp_17 = true }
    else if leb 1900 v
    then record { msvc_version = some 1400; name = codes "MSVC++ 14.0 (VS2015)"; cpp_17 = false }
    else record {
      msvc_version = some 1399;
      name = codes "ver < MSVC++ 14.0 (VS2015)";
      cpp_17 = false;
    }

-- src/platform.h; `none` is `#error`.
unfoldable pub platform : Compiler → Option Defines
platform (msvc v) = some (msvc_defines v)
platform gnu = some (record { msvc_version = none; name = codes "g++"; cpp_17 = false })
platform unknown = none

-- np_alloc_test/platform.h, which has no case for GNU compilers.
unfoldable pub test_msvc_defines : (version : ℕ) → Defines
test_msvc_defines v =
    if leb 1914 v
    then record {
      msvc_version = some 1414;
      name = codes "MSVC++ 14.14 (VS2017 15.7)";
      cpp_17 = true;
    }
    else if leb 1910 v
    then record { msvc_version = some 1410; name = codes "MSVC++ 14.1 (VS2017)"; cpp_17 = true }
    else if leb 1900 v
    then record { msvc_version = some 1400; name = codes "MSVC++ 14.0 (VS2015)"; cpp_17 = false }
    else record {
      msvc_version = some 1399;
      name = codes "ver < MSVC++ 14.0 (VS2015)";
      cpp_17 = false;
    }

unfoldable pub test_platform : Compiler → Defines
test_platform (msvc v) = test_msvc_defines v
test_platform gnu = record { msvc_version = none; name = codes "unknown compiler"; cpp_17 = false }
test_platform unknown = record {
  msvc_version = none;
  name = codes "unknown compiler";
  cpp_17 = false;
}

-- The two headers agree on Microsoft's compiler.
pub platform-test_platform : (v : ℕ) → platform (msvc v) ≡ some (test_platform (msvc v))
unfolding platform test_platform msvc_defines test_msvc_defines
platform-test_platform v = refl

-- The headers that src/stdafx.h includes, by the compiler's branch.
abbrev pub first_headers : Compiler → List Text
first_headers (msvc v) =
    codes "targetver.h"
    ∷ codes "windows.h"
    ∷ codes "tchar.h"
    ∷ codes "intrin.h"
    ∷ codes "minwindef.h"
    ∷ []
first_headers gnu = codes "linux/tchar.h" ∷ []
first_headers unknown = codes "linux/tchar.h" ∷ []

unfoldable pub stdafx : Compiler → List Text
stdafx c =
    first_headers c
    ++ (codes "stdio.h"
        ∷ codes "stdint.h"
        ∷ codes "string.h"
        ∷ codes "assert.h"
        ∷ codes "stdlib.h"
        ∷ codes "string"
        ∷ codes "vector"
        ∷ codes "array"
        ∷ codes "set"
        ∷ codes "iostream"
        ∷ codes "sstream"
        ∷ codes "atomic"
        ∷ codes "functional"
        ∷ codes "utility"
        ∷ codes "tuple"
        ∷ [])
