-- ===== src/ModuleName/System.antt =====
-- The table system_modules of projects/prospero-win/src/pw_module_name.c and the binary search in it, which
-- answers exactly for the names of the table.
pub mod Search
use Prim.Native.Char.{code}
use Prim.Native.String.{String}
use ps5_homebrew_lab.Common.{
  ℕ, zero, suc, ◌+◌, ◌-◌, ◌/◌, ◌≤◌, ◌<◌, ◌≡◌, ◌≢◌, ◌⊎◌, inl, inr, Bool, true, false, not, ◌&&◌,
  ◌||◌, Option, none, some, List, [], ◌∷◌, length, get_elem?, map, ltb, leb, ◌==◌, if◌then◌else◌,
  arith, refl, Bool-cases, Option-cases,
}
use ps5_homebrew_lab.Pe.Bytes.{Bytes}

abbrev pub codes : String → Bytes
codes String.[] = []
codes (String.◌∷◌ c s) = code c ∷ codes s

unfoldable pub system_modules : List Bytes
system_modules = map codes (
    "advapi32.dll" ∷ "comctl32.dll" ∷ "comdlg32.dll" ∷ "crypt32.dll" ∷ "d3d10.dll" ∷ "d3d11.dll"
    ∷ "d3d8.dll" ∷ "d3d9.dll" ∷ "d3dim.dll" ∷ "ddraw.dll" ∷ "dinput.dll" ∷ "dinput8.dll"
    ∷ "dsound.dll" ∷ "dxgi.dll" ∷ "gdi32.dll" ∷ "glu32.dll" ∷ "imm32.dll" ∷ "kernel32.dll"
    ∷ "kernelbase.dll" ∷ "msacm32.dll" ∷ "msimg32.dll" ∷ "msvcrt.dll" ∷ "ntdll.dll" ∷ "ole32.dll"
    ∷ "oleaut32.dll" ∷ "opengl32.dll" ∷ "psapi.dll" ∷ "rpcrt4.dll" ∷ "secur32.dll" ∷ "setupapi.dll"
    ∷ "shell32.dll" ∷ "shlwapi.dll" ∷ "ucrtbase.dll" ∷ "user32.dll" ∷ "version.dll" ∷ "wininet.dll"
    ∷ "winmm.dll" ∷ "ws2_32.dll" ∷ "wsock32.dll" ∷ [])

-- What strcmp tells: below, the same, or above.
pub data Order : Type 0 where
  below same above : Order

unfoldable pub strcmp : Bytes → Bytes → Order
strcmp [] [] = same
strcmp [] (y ∷ ys) = below
strcmp (x ∷ xs) [] = above
strcmp (x ∷ xs) (y ∷ ys) =
    let rest = strcmp xs ys in if x == y then rest else if ltb x y then below else above

-- The loop, where the fuel bounds its rounds: an interval that is not empty shrinks. The middle lies in the table.
unfoldable pub search : ℕ → List Bytes → Bytes → ℕ → ℕ → Bool
search zero table name low high = false
search (suc fuel) table name low high = elim (ltb low high) [
  | false ↦ false
  | true ↦ elim (get_elem? table (low + (high - low) / 2)) [
    | none ↦ false
    | some entry ↦ elim (strcmp name entry) [
      | same ↦ true
      | below ↦ search fuel table name low (low + (high - low) / 2)
      | above ↦ search fuel table name (low + (high - low) / 2 + 1) high
    ]
  ]
]

unfoldable pub is_system : Bytes → Bool
is_system name = search (length system_modules) system_modules name 0 (length system_modules)

unfoldable pub system_count : ℕ
system_count = length system_modules

unfoldable pub system_name : ℕ → Option Bytes
system_name index = if ltb index system_count then get_elem? system_modules index else none

abbrev pub is_below : Order → Bool
is_below below = true
is_below same = false
is_below above = false

-- Each entry is below the next one.
pub sorted : List Bytes → Bool
sorted [] = true
sorted (a ∷ []) = true
sorted (a ∷ b ∷ rest) = is_below (strcmp a b) && sorted (b ∷ rest)

pub system_modules-sorted : sorted system_modules ≡ true
unfolding sorted system_modules strcmp
system_modules-sorted = refl
