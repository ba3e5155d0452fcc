-- ===== src/ModuleName/Tests.antt =====
-- The name "D3D" in its forms, and the theorems at it.
use ps5_homebrew_lab.Common.{ℕ, get_elem?, some, ◌↔◌, false, ◌≡◌, refl, [], ◌∷◌, ◌++◌, true, ok}
use ps5_homebrew_lab.Pe.Bytes.{Bytes}
use ps5_homebrew_lab.ModuleName.{ascii_lower, check_bytes, last_dot, canonical, equal, dll}
use ps5_homebrew_lab.ModuleName.Case.{canonical-equal}
use ps5_homebrew_lab.ModuleName.System.{
  codes, is_system, system_modules, search, strcmp, system_name, system_count,
}
use ps5_homebrew_lab.ModuleName.System.Search.{is_system_iff}

abbrev upper_name : Bytes
upper_name = 0x44 ∷ 0x33 ∷ 0x44 ∷ []

abbrev lower_name : Bytes
lower_name = 0x64 ∷ 0x33 ∷ 0x64 ∷ []

canonical_run : canonical 64 upper_name ≡ ok (lower_name ++ dll)
unfolding canonical check_bytes last_dot ascii_lower
canonical_run = refl

equal_run : equal upper_name lower_name ≡ true
unfolding equal ascii_lower
equal_run = refl

canonical-equal_example : canonical 64 upper_name ≡ canonical 64 lower_name
canonical-equal_example = canonical-equal 64 upper_name lower_name equal_run

is_system_iff_example :
    (is_system (codes "kernel32.dll") ≡ true)
    ↔ ((i : ℕ) × (get_elem? system_modules i ≡ some (codes "kernel32.dll")))
is_system_iff_example = is_system_iff (codes "kernel32.dll")

is_system_run : is_system (codes "kernel32.dll") ≡ true
unfolding is_system search system_modules strcmp
is_system_run = refl

no_system_run : is_system (codes "binkw32.dll") ≡ false
unfolding is_system search system_modules strcmp
no_system_run = refl

system_name_run : system_name 5 ≡ some (codes "d3d11.dll")
unfolding system_name system_count system_modules
system_name_run = refl
