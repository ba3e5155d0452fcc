-- ===== src/Pe/Image.antt =====
-- projects/prospero-win/src/pe_image.h and pe_image.c: the headers, the data directories and the
-- section table of a PE file. The pointers are present; the fields of an image that a failed parse has
-- filled are not kept. `directories` holds the directory_count entries that may be asked for.
pub mod Safety
pub mod Shape
pub mod Lookup
pub mod Names
pub mod Tests
use ps5_homebrew_lab.Common.{
  ℕ, zero, suc, ◌+◌, ◌-◌, ◌*◌, ◌%◌, ◌^◌, bit_and, Bool, true, false, not, ◌&&◌, ◌||◌, Option, none,
  some, List, [], ◌∷◌, length, get_elem?, ltb, leb, ◌==◌, if◌then◌else◌, Outcome, ok, err, ◌>>=◌,
  ◌>>◌, refuse, Error, precondition, not_pe, truncated, malformed, unsupported, limit, not_found,
  min,
}
use ps5_homebrew_lab.Pe.Bytes.{Bytes, byte, read_u8, read_u16, read_u32, read_u64, span_ok}

pub record Section : Type 0 where
  pub name : Bytes
  pub virtual_address : ℕ
  pub virtual_size : ℕ
  pub raw_offset : ℕ
  pub raw_size : ℕ
  pub characteristics : ℕ

pub record Directory : Type 0 where
  pub virtual_address : ℕ
  pub size : ℕ

-- What parse_optional_header fills in.
pub record OptionalHeader : Type 0 where
  pub optional_magic : ℕ
  pub entry_point : ℕ
  pub image_base : ℕ
  pub section_alignment : ℕ
  pub file_alignment : ℕ
  pub size_of_image : ℕ
  pub size_of_headers : ℕ
  pub subsystem : ℕ
  pub dll_characteristics : ℕ
  pub directory_count : ℕ
  pub directories : List Directory

pub record Image : Type 0 where
  pub bytes : Bytes
  pub nt_offset : ℕ
  pub machine : ℕ
  pub characteristics : ℕ
  pub section_count : ℕ
  pub optional_header_bytes : ℕ
  pub header : OptionalHeader
  pub open header use *
  pub sections : List Section

abbrev pub image_size : Image → ℕ
image_size im = length im.bytes

abbrev pub machine_i386 : ℕ
machine_i386 = 0x014c

abbrev pub machine_amd64 : ℕ
machine_amd64 = 0x8664

abbrev pub magic_pe32 : ℕ
magic_pe32 = 0x010b

abbrev pub magic_pe32_plus : ℕ
magic_pe32_plus = 0x020b

abbrev pub file_dll : ℕ
file_dll = 0x2000

abbrev pub max_sections : ℕ
max_sections = 96

abbrev pub directory_entries : ℕ
directory_entries = 16

unfoldable pub power_of_two : ℕ → Bool
power_of_two value = not (value == 0) && bit_and value (value - 1) == 0

-- The bytes before the data directories, for the two magic numbers.
pub fixed_bytes : ℕ → Outcome ℕ
fixed_bytes magic =
    if magic == magic_pe32
    then ok 0x60
    else if magic == magic_pe32_plus
    then ok 0x70
    else err unsupported

-- The loop over the data directories: `n` are left, and `entry` is the offset of the next one in the
-- optional header, which starts at `optional`.
pub parse_directories : Bytes → ℕ → ℕ → ℕ → ℕ → Outcome (List Directory)
parse_directories b optional optional_bytes entry zero = ok []
parse_directories b optional optional_bytes entry (suc n) = do
  refuse (ltb optional_bytes (entry + 8)) truncated
  address ← read_u32 b (optional + entry)
  bytes ← read_u32 b (optional + entry + 4)
  rest ← parse_directories b optional optional_bytes (entry + 8) n
  ok (record { virtual_address = address; size = bytes } ∷ rest)

pub bad_alignment : ℕ → ℕ → Bool
bad_alignment section file =
    not (power_of_two section)
    || not (power_of_two file)
    || ltb section file
    || (not (section == file) && ltb file 512)

pub parse_optional_header : Bytes → ℕ → ℕ → Outcome OptionalHeader
parse_optional_header b optional optional_bytes = do
  refuse (ltb optional_bytes 2) truncated
  magic ← read_u16 b optional
  fixed ← fixed_bytes magic
  refuse (ltb optional_bytes fixed) truncated
  entry ← read_u32 b (optional + 0x10)
  base ←
      (if magic == magic_pe32 then read_u32 b (optional + 0x1c) else read_u64 b (optional + 0x18))
  section ← read_u32 b (optional + 0x20)
  file ← read_u32 b (optional + 0x24)
  image_bytes ← read_u32 b (optional + 0x38)
  header_bytes ← read_u32 b (optional + 0x3c)
  system ← read_u16 b (optional + 0x44)
  dll ← read_u16 b (optional + 0x46)
  declared ← read_u32 b (optional + (fixed - 4))
  refuse (bad_alignment section file) malformed
  refuse (image_bytes == 0 || header_bytes == 0) malformed
  table ← parse_directories b optional optional_bytes fixed (min declared directory_entries)
  ok (record {
    optional_magic = magic;
    entry_point = entry;
    image_base = base;
    section_alignment = section;
    file_alignment = file;
    size_of_image = image_bytes;
    size_of_headers = header_bytes;
    subsystem = system;
    dll_characteristics = dll;
    directory_count = min declared directory_entries;
    directories = table;
  })

-- The eight bytes of a section's name.
pub read_bytes : Bytes → ℕ → ℕ → Outcome Bytes
read_bytes b o zero = ok []
read_bytes b o (suc n) = do x ← read_u8 b o; rest ← read_bytes b (o + 1) n; ok (x ∷ rest)

pub parse_section : Bytes → ℕ → Outcome Section
parse_section b entry = do
  text ← read_bytes b entry 8
  virtual_bytes ← read_u32 b (entry + 8)
  address ← read_u32 b (entry + 12)
  raw_bytes ← read_u32 b (entry + 16)
  raw ← read_u32 b (entry + 20)
  flags ← read_u32 b (entry + 36)
  refuse (not (raw_bytes == 0) && not (span_ok (length b) raw raw_bytes)) truncated
  ok (record {
    name = text;
    virtual_address = address;
    virtual_size = virtual_bytes;
    raw_offset = raw;
    raw_size = raw_bytes;
    characteristics = flags;
  })

pub parse_sections : Bytes → ℕ → ℕ → Outcome (List Section)
parse_sections b entry zero = ok []
parse_sections b entry (suc n) = do
  section ← parse_section b entry
  rest ← parse_sections b (entry + 40) n
  ok (section ∷ rest)

-- pe_image_parse from the file header on, which is at `file_header`.
pub parse_headers : Bytes → ℕ → Outcome Image
parse_headers b nt = do
  cpu ← read_u16 b (nt + 4)
  count ← read_u16 b (nt + 4 + 2)
  optional_bytes ← read_u16 b (nt + 4 + 16)
  flags ← read_u16 b (nt + 4 + 18)
  refuse (not (cpu == machine_i386) && not (cpu == machine_amd64)) unsupported
  refuse (count == 0 || ltb max_sections count) malformed
  refuse (not (span_ok (length b) (nt + 24) optional_bytes)) truncated
  optional ← parse_optional_header b (nt + 24) optional_bytes
  refuse (not (span_ok (length b) (nt + 24 + optional_bytes) (count * 40))) truncated
  refuse (ltb optional.size_of_headers (nt + 24 + optional_bytes + count * 40)) malformed
  table ← parse_sections b (nt + 24 + optional_bytes) count
  ok (record {
    bytes = b;
    nt_offset = nt;
    machine = cpu;
    characteristics = flags;
    section_count = count;
    optional_header_bytes = optional_bytes;
    header = optional;
    sections = table;
  })

pub parse : Bytes → Outcome Image
parse b = do
  refuse (ltb (length b) 0x40) truncated
  dos ← read_u16 b 0
  refuse (not (dos == 0x5a4d)) not_pe
  nt ← read_u32 b 0x3c
  refuse (not (bit_and nt 3 == 0) || ltb nt 0x40) malformed
  refuse (not (span_ok (length b) nt 24)) truncated
  signature ← read_u32 b nt
  refuse (not (signature == 0x00004550)) not_pe
  parse_headers b nt

pub is_dll : Image → Bool
is_dll im = not (bit_and im.characteristics file_dll == 0)

pub machine_is_native : Image → Bool
machine_is_native im = im.machine == machine_amd64

unfoldable pub directory : Image → ℕ → Option Directory
directory im index = if leb im.directory_count index then none else get_elem? im.directories index

abbrev pub section_virtual_bytes : Section → ℕ
section_virtual_bytes s = if s.virtual_size == 0 then s.raw_size else s.virtual_size

-- The second test in the loop of pe_image_section_for_rva.
abbrev pub owns : Section → ℕ → Bool
owns s rva = leb s.virtual_address rva && ltb (rva - s.virtual_address) (section_virtual_bytes s)

pub first_owner : List Section → ℕ → Option Section
first_owner [] rva = none
first_owner (s ∷ ss) rva =
    if not (section_virtual_bytes s == 0) && owns s rva then some s else first_owner ss rva

pub section_for_rva : Image → ℕ → Option Section
section_for_rva im rva = first_owner im.sections rva

-- pe_image_file_offset behind the headers.
pub offset_in : Image → ℕ → ℕ → Section → Outcome ℕ
offset_in im rva bytes s = do
  let inner = rva - s.virtual_address
  refuse (leb s.raw_size inner) not_found
  refuse (ltb s.raw_size (inner + bytes)) malformed
  refuse (not (span_ok (image_size im) (s.raw_offset + inner) bytes)) truncated
  ok (s.raw_offset + inner)

pub or_not_found {ℓ} : {A : Type ℓ} → Option A → Outcome A
or_not_found none = err not_found
or_not_found (some a) = ok a

-- pe_image_file_offset in the headers, which are mapped one to one with the file.
unfoldable pub offset_in_headers : Image → ℕ → ℕ → Outcome ℕ
offset_in_headers im rva bytes = do
  refuse (ltb im.size_of_headers (rva + bytes)) malformed
  refuse (not (span_ok (image_size im) rva bytes)) truncated
  ok rva

unfoldable pub file_offset : Image → ℕ → ℕ → Outcome ℕ
file_offset im rva bytes = do
  refuse (bytes == 0) precondition
  if ltb rva im.size_of_headers
      then offset_in_headers im rva bytes
      else (do s ← or_not_found (section_for_rva im rva); offset_in im rva bytes s)

-- Where pe_image_read_name starts, and how many bytes it may look at.
pub name_in : Image → ℕ → Section → Outcome (ℕ × ℕ)
name_in im rva s = do
  let inner = rva - s.virtual_address
  refuse (leb s.raw_size inner) not_found
  let offset = s.raw_offset + inner
  refuse (leb (image_size im) offset) truncated
  ok (offset, min (s.raw_size - inner) (image_size im - offset))

unfoldable pub name_in_headers : Image → ℕ → Outcome (ℕ × ℕ)
name_in_headers im rva = do
  refuse (leb (image_size im) rva) truncated
  ok (rva, min (im.size_of_headers - rva) (image_size im - rva))

unfoldable pub name_span : Image → ℕ → Outcome (ℕ × ℕ)
name_span im rva =
    if ltb rva im.size_of_headers
    then name_in_headers im rva
    else (do s ← or_not_found (section_for_rva im rva); name_in im rva s)

abbrev pub prepend : ℕ → Outcome Bytes → Outcome Bytes
prepend x r = r >>= λ rest. ok (x ∷ rest)

-- The scan for the NUL byte. Where `available` bytes hold none the name is malformed.
unfoldable pub scan_name : Bytes → ℕ → ℕ → Outcome Bytes
scan_name b offset zero = err malformed
scan_name b offset (suc available) =
    let rest = scan_name b (offset + 1) available in
    read_u8 b offset >>= λ x.
    if x == 0 then ok [] else if ltb x 0x20 || ltb 0x7e x then err malformed else prepend x rest

-- The name, without the NUL byte that is stored behind it.
unfoldable pub read_name : Image → ℕ → ℕ → Outcome Bytes
read_name im rva out_bytes = do
  refuse (out_bytes == 0) precondition
  (offset, available) ← name_span im rva
  name ← scan_name im.bytes offset available
  refuse (length name == 0) malformed
  refuse (ltb out_bytes (length name + 1)) limit
  ok name
