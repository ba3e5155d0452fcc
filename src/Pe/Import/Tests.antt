-- ===== src/Pe/Import/Tests.antt =====
-- An image that imports one symbol by its name and one by its ordinal, and the theorems at it.
use ps5_homebrew_lab.Common.{
  ℕ, ◌+◌, ◌≡◌, refl, List, [], ◌∷◌, length, set, replicate, true, false, ok,
}
use ps5_homebrew_lab.Pe.Bytes.{Bytes, read_u8, read_u16, read_u32, u16, u32, span_ok}
use ps5_homebrew_lab.Pe.Image.{
  Directory, Image, directory, file_offset, offset_in_headers, read_name, name_span,
  name_in_headers, scan_name,
}
use ps5_homebrew_lab.Pe.Image.Tests.{header32, program, no_directory}
use ps5_homebrew_lab.Pe.Import.{
  Module, Table, Symbol, thunk_bytes, read_thunk, thunk_is_ordinal, count_from, count_thunks,
  read_descriptor, parse_module, parse_from, parse_directory, parse, read_symbol, enumerate_from,
  enumerate,
}
use ps5_homebrew_lab.Pe.Import.Count.{by_ordinals, enumerate-parse}

write_all : Bytes → List (ℕ × ℕ) → Bytes
write_all b [] = b
write_all b ((o, v) ∷ rest) = write_all (set b o v) rest

-- The descriptor at 16, the thunks at 60, the names at 100 and 112.
abbrev pub file : Bytes
unfolding write_all
file = write_all (replicate 160 0) (
    (16, 60)
    ∷ (28, 100)
    ∷ (32, 80)
    ∷ (60, 7)
    ∷ (63, 0x80)
    ∷ (64, 110)
    ∷ (100, 0x61)
    ∷ (110, 5)
    ∷ (112, 0x66)
    ∷ [])

abbrev pub imports : Directory
imports = record { virtual_address = 16; size = 40 }

abbrev pub importer : Image
importer = record program {
  bytes = file;
  header = record header32 {
    size_of_headers = 160;
    directory_count = 2;
    directories = no_directory ∷ imports ∷ [];
  };
}

abbrev pub dependency : Module
dependency = record {
  name = 0x61 ∷ [];
  name_rva = 100;
  lookup_table_rva = 60;
  address_table_rva = 80;
  forwarder_chain = 0;
  timestamp = 0;
  named_count = 1;
  ordinal_count = 1;
  bound = false;
}

abbrev pub table : Table
table = record { symbol_count = 2; modules = dependency ∷ [] }

abbrev pub seventh : Symbol
seventh = record { name = []; thunk_rva = 80; hint = 0; ordinal = 7; by_ordinal = true }

abbrev pub named : Symbol
named = record { name = 0x66 ∷ []; thunk_rva = 84; hint = 5; ordinal = 0; by_ordinal = false }

parse_run : parse importer ≡ ok table
unfolding parse parse_directory parse_from parse_module read_descriptor count_thunks count_from
    thunk_bytes read_thunk thunk_is_ordinal directory file_offset offset_in_headers read_name
    name_span name_in_headers scan_name read_u8 read_u32 u32 span_ok write_all
parse_run = refl

enumerate_run : enumerate importer dependency 2 ≡ ok (seventh ∷ named ∷ [])
unfolding enumerate enumerate_from read_symbol thunk_bytes read_thunk thunk_is_ordinal file_offset
    offset_in_headers read_name name_span name_in_headers scan_name read_u8 read_u16 read_u32 u16
    u32 span_ok write_all
enumerate_run = refl

width_run : thunk_bytes importer ≡ ok 4
unfolding thunk_bytes
width_run = refl

enumerate-parse_example :
    (length (seventh ∷ named ∷ []) ≡ 1 + 1) × (by_ordinals (seventh ∷ named ∷ []) ≡ 1)
enumerate-parse_example =
    enumerate-parse importer table 0 dependency 2 (seventh ∷ named ∷ []) parse_run refl
      enumerate_run

-- The same program, in an image of 160 bytes.
abbrev pub small_importer : Image
small_importer = record importer { header = record importer.header { size_of_image = 160 } }

pub small_parse_run : parse small_importer ≡ ok table
unfolding parse parse_directory parse_from parse_module read_descriptor count_thunks count_from
    thunk_bytes read_thunk thunk_is_ordinal directory file_offset offset_in_headers read_name
    name_span name_in_headers scan_name read_u8 read_u32 u32 span_ok write_all
small_parse_run = refl

pub small_enumerate_run : enumerate small_importer dependency 512 ≡ ok (seventh ∷ named ∷ [])
unfolding enumerate enumerate_from read_symbol thunk_bytes read_thunk thunk_is_ordinal file_offset
    offset_in_headers read_name name_span name_in_headers scan_name read_u8 read_u16 read_u32 u16
    u32 span_ok write_all
small_enumerate_run = refl
