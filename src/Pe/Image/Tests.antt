-- ===== src/Pe/Image/Tests.antt =====
-- A PE32 file of 296 bytes with two sections, and the theorems on parsing and lookup at it.
use ps5_homebrew_lab.Common.{
  ℕ, zero, suc, set, ◌/◌, ◌+◌, ◌-◌, ◌%◌, ◌≤◌, ◌<◌, ◌≡◌, ◌≢◌, ◌⊎◌, ◌↔◌, refl, List, [], ◌∷◌, length,
  replicate, ok, err, fault, truncated, some,
}
use ps5_homebrew_lab.Pe.Bytes.{Bytes, u16, u32, read_u8, read_u16, read_u32, span_ok}
use ps5_homebrew_lab.Pe.Image.{
  Section, Directory, OptionalHeader, Image, image_size, parse, parse_headers,
  parse_optional_header, fixed_bytes, bad_alignment, power_of_two, parse_directories,
  parse_sections, parse_section, read_bytes, first_owner, section_for_rva, offset_in,
  offset_in_headers, or_not_found, file_offset, name_in, name_span, scan_name, read_name,
}
use ps5_homebrew_lab.Pe.Image.Safety.{parse-ne-fault}
use ps5_homebrew_lab.Pe.Image.Shape.{IsWellFormed, parse-IsWellFormed}
use ps5_homebrew_lab.Pe.Image.Lookup.{file_offset_sound}
use ps5_homebrew_lab.Pe.Image.Names.{NameAt, read_name_iff}

-- An offset, a number of bytes and a value.
abbrev Field : Type 0
Field = ℕ × ℕ × ℕ

write_value : Bytes → ℕ → ℕ → ℕ → Bytes
write_value b o zero v = b
write_value b o (suc n) v = write_value (set b o (v % 256)) (o + 1) n (v / 256)

write_fields : Bytes → List Field → Bytes
unfolding write_value
write_fields b [] = b
write_fields b ((o, n, v) ∷ fields) = write_fields (write_value b o n v) fields

abbrev section_fields : ℕ → ℕ → ℕ → ℕ → ℕ → ℕ → ℕ → List Field
section_fields at name virtual_size address raw_size raw_offset flags =
    (at, 8, name)
    ∷ (at + 8, 4, virtual_size)
    ∷ (at + 12, 4, address)
    ∷ (at + 16, 4, raw_size)
    ∷ (at + 20, 4, raw_offset)
    ∷ (at + 36, 4, flags)
    ∷ []

abbrev header_fields : List Field
header_fields =
    (0, 2, 0x5a4d)
    ∷ (60, 4, 64)
    ∷ (64, 4, 0x4550)
    ∷ (68, 2, 0x14c)
    ∷ (70, 2, 2)
    ∷ (84, 2, 104)
    ∷ (86, 2, 0x102)
    ∷ (88, 2, 0x10b)
    ∷ (104, 4, 0x1000)
    ∷ (116, 4, 0x40_0000)
    ∷ (120, 4, 0x1000)
    ∷ (124, 4, 512)
    ∷ (144, 4, 0x3000)
    ∷ (148, 4, 272)
    ∷ (156, 2, 2)
    ∷ (158, 2, 0x140)
    ∷ (180, 4, 1)
    ∷ (288, 4, 0x63_6261)
    ∷ []

pub file : Bytes
unfolding write_fields
file =
    write_fields
      (write_fields (write_fields (replicate 296 0) header_fields)
        (section_fields 192 0x2e 16 0x1000 16 272 0x6000_0020))
      (section_fields 232 0x2f 32 0x2000 8 288 0xc000_0040)

abbrev pub text : Section
text = record {
  name = 0x2e ∷ 0 ∷ 0 ∷ 0 ∷ 0 ∷ 0 ∷ 0 ∷ 0 ∷ [];
  virtual_address = 0x1000;
  virtual_size = 16;
  raw_offset = 272;
  raw_size = 16;
  characteristics = 0x6000_0020;
}

abbrev pub data_section : Section
data_section = record {
  name = 0x2f ∷ 0 ∷ 0 ∷ 0 ∷ 0 ∷ 0 ∷ 0 ∷ 0 ∷ [];
  virtual_address = 0x2000;
  virtual_size = 32;
  raw_offset = 288;
  raw_size = 8;
  characteristics = 0xc000_0040;
}

abbrev pub no_directory : Directory
no_directory = record { virtual_address = 0; size = 0 }

abbrev pub header32 : OptionalHeader
header32 = record {
  optional_magic = 0x10b;
  entry_point = 0x1000;
  image_base = 0x40_0000;
  section_alignment = 0x1000;
  file_alignment = 512;
  size_of_image = 0x3000;
  size_of_headers = 272;
  subsystem = 2;
  dll_characteristics = 0x140;
  directory_count = 1;
  directories = no_directory ∷ [];
}

abbrev pub program : Image
program = record {
  bytes = file;
  nt_offset = 64;
  machine = 0x14c;
  characteristics = 0x102;
  section_count = 2;
  optional_header_bytes = 104;
  header = header32;
  sections = text ∷ data_section ∷ [];
}

parse_run : parse file ≡ ok program
unfolding parse parse_headers parse_optional_header fixed_bytes bad_alignment power_of_two
    parse_directories parse_sections parse_section read_bytes read_u8 read_u16 read_u32 u16 u32
    span_ok write_fields write_value file
parse_run = refl

pub length-program : image_size program ≡ 296
unfolding file write_fields write_value
length-program = refl

pub program-IsWellFormed : IsWellFormed program
program-IsWellFormed = (parse-IsWellFormed file program parse_run).0

parse-IsWellFormed_example : IsWellFormed program × (program.bytes ≡ file)
parse-IsWellFormed_example = parse-IsWellFormed file program parse_run

parse-ne-fault_example : parse file ≢ fault
parse-ne-fault_example = parse-ne-fault file

offset_run : file_offset program 0x1004 8 ≡ ok 276
unfolding file_offset offset_in section_for_rva first_owner or_not_found span_ok file write_fields
    write_value
offset_run = refl

file_offset_sound_example :
    (0 < 8)
    × (276 + 8 ≤ image_size program)
    × (((0x1004 + 8 ≤ 272) × (◌≡◌ {A = ℕ} 276 0x1004))
        ⊎ ((s : Section) × (section_for_rva program 0x1004 ≡ some s)
            × (s.virtual_address ≤ 0x1004)
            × (0x1004 - s.virtual_address + 8 ≤ s.raw_size)
            × (276 ≡ s.raw_offset + (0x1004 - s.virtual_address))))
file_offset_sound_example = file_offset_sound program 0x1004 8 276 offset_run

name_run : name_span program 0x2000 ≡ ok (288, 8)
unfolding name_span name_in section_for_rva first_owner or_not_found file write_fields write_value
name_run = refl

abbrev abc : Bytes
abc = 0x61 ∷ 0x62 ∷ 0x63 ∷ []

read_name_iff_example :
    (read_name program 0x2000 4 ≡ ok abc)
    ↔ (NameAt program.bytes 288 abc × (length abc < 8) × (0 < length abc) × (length abc < 4))
read_name_iff_example = read_name_iff program 0x2000 4 288 8 abc name_run

read_name_run : read_name program 0x2000 4 ≡ ok abc
unfolding read_name scan_name read_u8 name_span name_in section_for_rva first_owner or_not_found
    file write_fields write_value
read_name_run = refl

-- The same file with headers that are declared to be longer than the file.
abbrev long_file : Bytes
unfolding file write_fields
long_file = write_value file 148 4 400

abbrev long : Image
long = record program { bytes = long_file; header = record header32 { size_of_headers = 400 } }

long_run : parse long_file ≡ ok long
unfolding parse parse_headers parse_optional_header fixed_bytes bad_alignment power_of_two
    parse_directories parse_sections parse_section read_bytes read_u8 read_u16 read_u32 u16 u32
    span_ok write_fields write_value file
long_run = refl

truncated_run : file_offset long 290 16 ≡ err truncated
unfolding file_offset offset_in_headers span_ok file write_fields write_value
truncated_run = refl
