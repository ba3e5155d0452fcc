-- ===== src/ModuleName.antt =====
-- projects/prospero-win/src/pw_module_name.h and pw_module_name.c: the names of modules, in the form that
-- the loader compares. A string is the list of its bytes before the NUL.
pub mod Case
pub mod System
mod Tests
use ps5_homebrew_lab.Common.{
  ℕ, zero, suc, ◌+◌, ◌-◌, Bool, true, false, not, ◌&&◌, ◌||◌, Option, none, some, List, [], ◌∷◌,
  ◌++◌, map, length, ltb, leb, ◌==◌, if◌then◌else◌, Outcome, ok, err, ◌>>=◌, ◌>>◌, refuse,
  precondition, malformed, limit,
}
use ps5_homebrew_lab.Pe.Bytes.{Bytes}

abbrev pub name_max : ℕ
name_max = 63

pub ascii_lower : ℕ → ℕ
ascii_lower value = if leb 0x41 value && leb value 0x5a then value + 0x20 else value

-- Not printable, or one of `/`, `\` and `:`.
abbrev pub bad_byte : ℕ → Bool
bad_byte value = ltb value 0x20 || ltb 0x7e value || value == 0x2f || value == 0x5c || value == 0x3a

-- The loop that measures the name, behind `length` bytes of it.
pub check_bytes : ℕ → Bytes → Outcome (Unit {0})
check_bytes length [] = ok tt
check_bytes length (x ∷ xs) = do
  refuse (bad_byte x) malformed
  refuse (ltb name_max (length + 1)) limit
  check_bytes (length + 1) xs

abbrev pub or_first_dot : ℕ → Option ℕ → Option ℕ
or_first_dot x (some i) = some (i + 1)
or_first_dot x none = if x == 0x2e then some 1 else none

-- Where the loop from the end stops: one behind the last dot.
pub last_dot : Bytes → Option ℕ
last_dot [] = none
last_dot (x ∷ xs) = or_first_dot x (last_dot xs)

-- A trailing dot is no extension.
abbrev pub stops_inside : ℕ → Option ℕ → Bool
stops_inside length none = false
stops_inside length (some index) = not (index == length)

abbrev pub has_extension : Bytes → Bool
has_extension name = stops_inside (length name) (last_dot name)

abbrev pub dll : Bytes
dll = 0x2e ∷ 0x64 ∷ 0x6c ∷ 0x6c ∷ []

pub canonical : ℕ → Bytes → Outcome Bytes
canonical out_bytes name = do
  refuse (out_bytes == 0) precondition
  check_bytes 0 name
  refuse (length name == 0) malformed
  refuse (ltb out_bytes (if has_extension name then length name + 1 else length name + 5)) limit
  ok (map ascii_lower name ++ (if has_extension name then [] else dll))

pub equal : Bytes → Bytes → Bool
equal [] [] = true
equal [] (y ∷ ys) = false
equal (x ∷ xs) [] = false
equal (x ∷ xs) (y ∷ ys) = ascii_lower x == ascii_lower y && equal xs ys
