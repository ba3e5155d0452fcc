-- ===== src/Pe/Resource/Tests.antt =====
-- An image with a block of strings, of which the second one is "Hi", and the theorems at it.
use ps5_homebrew_lab.Common.{
  ℕ, ◌+◌, ◌*◌, ◌<◌, ◌≤◌, true, ◌≡◌, ◌≢◌, ◌⊎◌, refl, List, [], ◌∷◌, set, replicate, ok, fault,
}
use ps5_homebrew_lab.Pe.Bytes.{Bytes, read_u8, read_u16, read_u32, u16, u32, span_ok}
use ps5_homebrew_lab.Pe.Image.{
  Directory, Image, image_size, directory, file_offset, offset_in_headers,
}
use ps5_homebrew_lab.Pe.Image.Tests.{header32, program, no_directory}
use ps5_homebrew_lab.Pe.Resource.{
  span, span_in, read_table, choose, scan_entries, entry, resource_data, find, scan_strings, string,
}
use ps5_homebrew_lab.Pe.Resource.Scan.{number, target_of}
use ps5_homebrew_lab.Pe.Resource.Language.{entry_preferred}
use ps5_homebrew_lab.Pe.Resource.Strings.{string-inside, string-ne-fault}

write_all : Bytes → List (ℕ × ℕ) → Bytes
write_all b [] = b
write_all b ((o, v) ∷ rest) = write_all (set b o v) rest

-- The tables at 16, 40 and 64, the data entry at 88 and the strings at 104.
abbrev file : Bytes
unfolding write_all
file = write_all (replicate 160 0) (
    (30, 1)
    ∷ (32, 6)
    ∷ (36, 24)
    ∷ (39, 0x80)
    ∷ (54, 1)
    ∷ (56, 1)
    ∷ (60, 48)
    ∷ (63, 0x80)
    ∷ (78, 1)
    ∷ (80, 9)
    ∷ (84, 72)
    ∷ (88, 104)
    ∷ (92, 36)
    ∷ (106, 2)
    ∷ (108, 0x48)
    ∷ (110, 0x69)
    ∷ [])

abbrev resources : Directory
resources = record { virtual_address = 16; size = 144 }

abbrev texts : Image
texts = record program {
  bytes = file;
  header = record header32 {
    size_of_headers = 160;
    directory_count = 3;
    directories = no_directory ∷ no_directory ∷ resources ∷ [];
  };
}

string_run : string texts 1 9 ≡ ok (108, 2)
unfolding string find entry read_table span span_in scan_entries choose resource_data scan_strings
    directory file_offset offset_in_headers read_u8 read_u16 read_u32 u16 u32 span_ok write_all
string_run = refl

find_run : find texts 6 1 9 ≡ ok (record { offset = 104; size = 36; codepage = 0; language = 9 })
unfolding find entry read_table span span_in scan_entries choose resource_data directory file_offset
    offset_in_headers read_u8 read_u16 read_u32 u16 u32 span_ok write_all
find_run = refl

image_run : image_size texts ≡ 160
unfolding write_all
image_run = refl

string-inside_example : 108 + 2 * 2 ≤ image_size texts
string-inside_example = string-inside texts 1 9 108 2 string_run

string-ne-fault_example : string texts 1 9 ≢ fault
string-ne-fault_example = string-ne-fault texts 1 9

entry_run : entry texts 48 9 true ≡ ok (72, 9)
unfolding entry read_table span span_in scan_entries choose directory file_offset offset_in_headers
    read_u8 read_u16 read_u32 u16 u32 span_ok write_all
entry_run = refl

entry_preferred_example :
    (names : ℕ) × (count : ℕ) × (at : ℕ) × (read_table texts 48 ≡ ok (names, count, at))
    × ((j : ℕ) × (names ≤ j)
        × (j < count)
        × (9 ≡ number texts 9 names at j)
        × (72 ≡ target_of texts 9 names at j))
    × ((◌≡◌ {A = ℕ} 9 9)
        ⊎ ((◌≡◌ {A = ℕ} 9 0)
            × ((k : ℕ) → (names ≤ k) × (k < count) → number texts 9 names at k ≢ 9))
        ⊎ ((k : ℕ)
            → (names ≤ k) × (k < count)
            → (number texts 9 names at k ≢ 9)
              × (number texts 9 names at k ≢ 0)
              × (9 ≤ number texts 9 names at k)))
entry_preferred_example = entry_preferred texts 48 9 72 9 entry_run
