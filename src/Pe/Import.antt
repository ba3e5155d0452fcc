-- ===== src/Pe/Import.antt =====
-- projects/prospero-win/src/pe_import.h and pe_import.c: the import table of an image. The pointers are
-- present; what a failed call has filled in is not kept. `modules` holds the module_count entries.
pub mod Safety
pub mod Count
pub mod Thunks
pub mod Tests
use ps5_homebrew_lab.Common.{
  ℕ, zero, suc, ◌+◌, ◌-◌, ◌*◌, ◌/◌, ◌%◌, ◌^◌, bit_and, Bool, true, false, not, ◌&&◌, ◌||◌, Option,
  none, some, List, [], ◌∷◌, length, ltb, leb, ◌==◌, if◌then◌else◌, Outcome, ok, err, ◌>>=◌, ◌>>◌,
  refuse, malformed, unsupported, overflow, limit,
}
use ps5_homebrew_lab.Pe.Bytes.{Bytes, read_u16, read_u32, read_u64}
use ps5_homebrew_lab.Pe.Image.{
  Directory, Image, magic_pe32, magic_pe32_plus, directory, file_offset, read_name,
}

abbrev pub max_modules : ℕ
max_modules = 64

abbrev pub max_symbols : ℕ
max_symbols = 8192

-- PW_MODULE_NAME_MAX + 1 and PE_IMPORT_NAME_MAX + 1
abbrev pub module_name_bytes : ℕ
module_name_bytes = 64

abbrev pub symbol_name_bytes : ℕ
symbol_name_bytes = 128

pub record Module : Type 0 where
  pub name : Bytes
  pub name_rva : ℕ
  pub lookup_table_rva : ℕ
  pub address_table_rva : ℕ
  pub forwarder_chain : ℕ
  pub timestamp : ℕ
  pub named_count : ℕ
  pub ordinal_count : ℕ
  pub bound : Bool

pub record Table : Type 0 where
  pub symbol_count : ℕ
  pub modules : List Module

pub record Symbol : Type 0 where
  pub name : Bytes
  pub thunk_rva : ℕ
  pub hint : ℕ
  pub ordinal : ℕ
  pub by_ordinal : Bool

pub thunk_bytes : Image → Outcome ℕ
thunk_bytes im =
    if im.optional_magic == magic_pe32
    then ok 4
    else if im.optional_magic == magic_pe32_plus
    then ok 8
    else err unsupported

pub read_thunk : Image → ℕ → ℕ → Outcome ℕ
read_thunk im rva width = do
  offset ← file_offset im rva width
  if width == 4 then read_u32 im.bytes offset else read_u64 im.bytes offset

pub thunk_is_ordinal : ℕ → ℕ → Bool
thunk_is_ordinal width value =
    if width == 4
    then not (bit_and value 0x8000_0000 == 0)
    else not (bit_and value 0x8000_0000_0000_0000 == 0)

-- The loop of count_thunks at `index`, with the counters of the named and of the ordinal ones. The
-- source allows max_symbols rounds, of which `left` are left.
pub count_from : Image → ℕ → ℕ → ℕ → ℕ → ℕ → ℕ → Outcome (ℕ × ℕ)
count_from im table width index zero named ordinal = err limit
count_from im table width index (suc left) named ordinal =
    refuse (ltb (0xffff_ffff - index * width) table) overflow >>= λ _.
    read_thunk im (table + index * width) width >>= λ value.
    let is = thunk_is_ordinal width value in
    let rest =
      count_from im table width (index + 1) left (if is then named else named + 1)
        (if is then ordinal + 1 else ordinal) in
    if value == 0 then ok (named, ordinal) else rest

pub count_thunks : Image → ℕ → ℕ → Outcome (ℕ × ℕ)
count_thunks im table width = count_from im table width 0 max_symbols 0 0

-- The words of an import descriptor.
pub record Descriptor : Type 0 where
  pub lookup : ℕ
  pub timestamp : ℕ
  pub forwarder_chain : ℕ
  pub name_rva : ℕ
  pub address : ℕ

pub read_descriptor : Image → ℕ → ℕ → Outcome Descriptor
read_descriptor im table index = do
  refuse (ltb (0xffff_ffff / 20) index) overflow
  offset ← file_offset im ((table + index * 20) % 2 ^ 32) 20
  lookup ← read_u32 im.bytes offset
  name ← read_u32 im.bytes (offset + 12)
  address ← read_u32 im.bytes (offset + 16)
  stamp ← read_u32 im.bytes (offset + 4)
  chain ← read_u32 im.bytes (offset + 8)
  ok (record {
    lookup = lookup;
    timestamp = stamp;
    forwarder_chain = chain;
    name_rva = name;
    address = address;
  })

abbrev pub is_last : Descriptor → Bool
is_last d = d.lookup == 0 && d.name_rva == 0 && d.address == 0

abbrev pub source_rva : ℕ → ℕ → ℕ
source_rva lookup address = if not (lookup == 0) then lookup else address

-- The rest of a round, from the name on.
pub parse_module : Image → ℕ → Descriptor → Outcome Module
parse_module im width d = do
  name ← read_name im d.name_rva module_name_bytes
  (named, ordinal) ← count_thunks im (source_rva d.lookup d.address) width
  ok (record {
    name = name;
    name_rva = d.name_rva;
    lookup_table_rva = d.lookup;
    address_table_rva = d.address;
    forwarder_chain = d.forwarder_chain;
    timestamp = d.timestamp;
    named_count = named;
    ordinal_count = ordinal;
    bound = not (d.timestamp == 0) && not (d.timestamp == 0xffff_ffff);
  })

-- The loop over the descriptors, of which `left` may still be entered; `symbols` is the number so far.
pub parse_from : Image → ℕ → ℕ → ℕ → ℕ → ℕ → Outcome Table
parse_from im table width index zero symbols = read_descriptor im table index >>= λ d.
    if is_last d
    then ok (record { symbol_count = symbols; modules = [] })
    else (refuse (d.name_rva == 0 || d.address == 0) malformed >> err limit)
parse_from im table width index (suc left) symbols = read_descriptor im table index >>= λ d.
    if is_last d then ok (record { symbol_count = symbols; modules = [] }) else (do
      refuse (d.name_rva == 0 || d.address == 0) malformed
      m ← parse_module im width d
      t ←
          parse_from im table width (index + 1) left
            ((symbols + (m.named_count + m.ordinal_count)) % 2 ^ 32)
      ok (record { symbol_count = t.symbol_count; modules = m ∷ t.modules }))

abbrev pub no_imports : Table
no_imports = record { symbol_count = 0; modules = [] }

pub parse_directory : Image → Option Directory → Outcome Table
parse_directory im none = ok no_imports
parse_directory im (some d) =
    if d.virtual_address == 0 || d.size == 0
    then ok no_imports
    else (do width ← thunk_bytes im; parse_from im d.virtual_address width 0 max_modules 0)

pub parse : Image → Outcome Table
parse im = parse_directory im (directory im 1)

-- The symbol of a thunk that is not zero.
pub read_symbol : Image → ℕ → ℕ → ℕ → Outcome Symbol
read_symbol im width thunk value =
    if thunk_is_ordinal width value
    then ok (record {
      name = [];
      thunk_rva = thunk;
      hint = 0;
      ordinal = value % 2 ^ 16;
      by_ordinal = true;
    })
    else (do
      offset ← file_offset im (value % 2 ^ 32) 2
      hint ← read_u16 im.bytes offset
      name ← read_name im ((value % 2 ^ 32 + 2) % 2 ^ 32) symbol_name_bytes
      ok (record { name = name; thunk_rva = thunk; hint = hint; ordinal = 0; by_ordinal = false }))

-- The loop of pe_import_enumerate.
pub enumerate_from : Image → ℕ → ℕ → ℕ → ℕ → ℕ → ℕ → Outcome (List Symbol)
enumerate_from im source address width capacity index zero = err limit
enumerate_from im source address width capacity index (suc left) =
    refuse (ltb (0xffff_ffff - index * width) source || ltb (0xffff_ffff - index * width) address)
      overflow
    >>= λ _. read_thunk im (source + index * width) width >>= λ value.
        let rest = enumerate_from im source address width capacity (index + 1) left in
        if value == 0 then ok [] else (do
          refuse (leb capacity index) limit
          s ← read_symbol im width (address + index * width) value
          ss ← rest
          ok (s ∷ ss))

pub enumerate : Image → Module → ℕ → Outcome (List Symbol)
enumerate im m capacity = do
  width ← thunk_bytes im
  let source = source_rva m.lookup_table_rva m.address_table_rva
  refuse (source == 0) malformed
  enumerate_from im source m.address_table_rva width capacity 0 max_symbols
