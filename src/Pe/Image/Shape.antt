-- ===== src/Pe/Image/Shape.antt =====
-- What a successful parse establishes of the image.
use ps5_homebrew_lab.Common.{
  ℕ, zero, suc, ◌+◌, ◌*◌, ◌^◌, ◌%◌, ◌≤◌, ◌<◌, ◌≡◌, ◌⊎◌, true, false, List, [], ◌∷◌, length, arith,
  ok, refl, ap,
}
use ps5_homebrew_lab.Common.Bits.{bit_and_low, pow_two_of_bit_and}
use ps5_homebrew_lab.Pe.Bytes.{Bytes, u32, read_u32, span_ok_bounds, read_u32-word, read_u64-word}
use ps5_homebrew_lab.Pe.Image.{
  Directory, OptionalHeader, Section, Image, fixed_bytes, parse_directories, parse_optional_header,
  parse_section, parse_sections, parse_headers, parse, magic_pe32, magic_pe32_plus, machine_i386,
  machine_amd64, bad_alignment, power_of_two, image_size,
}

abbrev pub All {ℓ κ} : {A : Type ℓ} → (A → Type κ) → List A → Type κ
All P [] = Unit
All P (x ∷ xs) = P x × All P xs

abbrev pub IsPowerOfTwo : ℕ → Type 0
IsPowerOfTwo a = (k : ℕ) × (a ≡ 2 ^ k)

-- The raw bytes of a section stand in the file, and its fields are words.
pub record SectionFits (size : ℕ) (s : Section) : Type 0 where
  pub raw : (s.raw_size ≡ 0) ⊎ (s.raw_offset + s.raw_size ≤ size)
  pub address_word : s.virtual_address < 2 ^ 32
  pub virtual_word : s.virtual_size < 2 ^ 32
  pub raw_word : s.raw_size < 2 ^ 32
  pub offset_word : s.raw_offset < 2 ^ 32

pub record HeaderFits (h : OptionalHeader) : Type 0 where
  pub known : (h.optional_magic ≡ magic_pe32) ⊎ (h.optional_magic ≡ magic_pe32_plus)
  pub section_power : IsPowerOfTwo h.section_alignment
  pub file_power : IsPowerOfTwo h.file_alignment
  pub ordered : h.file_alignment ≤ h.section_alignment
  pub sectored : (h.section_alignment ≡ h.file_alignment) ⊎ (512 ≤ h.file_alignment)
  pub image_nonempty : 0 < h.size_of_image
  pub headers_nonempty : 0 < h.size_of_headers
  pub capped : h.directory_count ≤ 16
  pub counted : length h.directories ≡ h.directory_count
  pub alignment_word : h.section_alignment < 2 ^ 32
  pub image_word : h.size_of_image < 2 ^ 32
  pub headers_word : h.size_of_headers < 2 ^ 32
  pub entry_word : h.entry_point < 2 ^ 32
  pub base_word : h.image_base < 2 ^ 64

pub record IsWellFormed (im : Image) : Type 0 where
  pub header_fits : HeaderFits im.header
  pub nt_aligned : im.nt_offset % 4 ≡ 0
  pub nt_behind_dos : 64 ≤ im.nt_offset
  pub cpu : (im.machine ≡ machine_i386) ⊎ (im.machine ≡ machine_amd64)
  pub some_sections : 1 ≤ im.section_count
  pub few_sections : im.section_count ≤ 96
  pub all_sections : length im.sections ≡ im.section_count
  pub table_in_file :
      im.nt_offset + 24 + im.optional_header_bytes + im.section_count * 40 ≤ image_size im
  pub table_in_headers :
      im.nt_offset + 24 + im.optional_header_bytes + im.section_count * 40 ≤ im.size_of_headers
  pub sections_fit : All (SectionFits (image_size im)) im.sections

pub power_of_two_sound : (a : ℕ) → power_of_two a ≡ true → IsPowerOfTwo a
unfolding power_of_two
power_of_two_sound a h = pow_two_of_bit_and a (ground arith) (ground arith)

length-parse_directories :
    (b : Bytes) (optional optional_bytes entry n : ℕ) (ds : List Directory)
    → parse_directories b optional optional_bytes entry n ≡ ok ds
    → length ds ≡ n
unfolding parse_directories
length-parse_directories b o w entry zero ds e = ground arith
length-parse_directories b o w entry (suc n) [] e = ground arith
length-parse_directories b o w entry (suc n) (d ∷ ds) e =
    ground (arith, length-parse_directories b o w (entry + 8) n ds)

-- The tests that a header has passed, one by one.
parse_optional_header_tests :
    (b : Bytes) (o w : ℕ) (h : OptionalHeader)
    → parse_optional_header b o w ≡ ok h
    → ((h.optional_magic ≡ magic_pe32) ⊎ (h.optional_magic ≡ magic_pe32_plus))
      × (bad_alignment h.section_alignment h.file_alignment ≡ false)
      × (0 < h.size_of_image)
      × (0 < h.size_of_headers)
      × (h.directory_count ≤ 16)
      × (length h.directories ≡ h.directory_count)
      × (h.section_alignment < 2 ^ 32)
      × (h.size_of_image < 2 ^ 32)
      × (h.size_of_headers < 2 ^ 32)
      × (h.entry_point < 2 ^ 32)
      × (h.image_base < 2 ^ 64)
unfolding parse_optional_header fixed_bytes
parse_optional_header_tests b o w h e = ground (
  arith,
  read_u32-word b (o + 0x10) h.entry_point,
  read_u32-word b (o + 0x1c) h.image_base,
  read_u64-word b (o + 0x18) h.image_base,
  read_u32-word b (o + 0x20) h.section_alignment,
  read_u32-word b (o + 0x38) h.size_of_image,
  read_u32-word b (o + 0x3c) h.size_of_headers,
  length-parse_directories b o w 0x60 h.directory_count h.directories,
  length-parse_directories b o w 0x70 h.directory_count h.directories,
)

bad_alignment-false :
    (section file : ℕ)
    → bad_alignment section file ≡ false
    → (power_of_two section ≡ true)
      × (power_of_two file ≡ true)
      × (file ≤ section)
      × ((section ≡ file) ⊎ (512 ≤ file))
unfolding bad_alignment
bad_alignment-false section file h = ground arith

parse_optional_header-HeaderFits :
    (b : Bytes) (o w : ℕ) (h : OptionalHeader) → parse_optional_header b o w ≡ ok h → HeaderFits h
parse_optional_header-HeaderFits b o w h e =
    let t = parse_optional_header_tests b o w h e in
    let a = bad_alignment-false h.section_alignment h.file_alignment t.1 in
    record {
      known = t.0;
      section_power = power_of_two_sound h.section_alignment a.0;
      file_power = power_of_two_sound h.file_alignment a.1;
      ordered = a.2;
      sectored = a.3;
      image_nonempty = t.2;
      headers_nonempty = t.3;
      capped = t.4;
      counted = t.5;
      alignment_word = t.6;
      image_word = t.7;
      headers_word = t.8;
      entry_word = t.9;
      base_word = t.10;
    }

parse_section-SectionFits :
    (b : Bytes) (entry : ℕ) (s : Section) → parse_section b entry ≡ ok s → SectionFits (length b) s
unfolding parse_section
parse_section-SectionFits b entry s e = ground (
  arith,
  span_ok_bounds (length b) s.raw_offset s.raw_size,
  read_u32-word b (entry + 8) s.virtual_size,
  read_u32-word b (entry + 12) s.virtual_address,
  read_u32-word b (entry + 16) s.raw_size,
  read_u32-word b (entry + 20) s.raw_offset,
)

parse_sections-SectionFits :
    (b : Bytes) (entry n : ℕ) (ss : List Section)
    → parse_sections b entry n ≡ ok ss
    → (length ss ≡ n) × All (SectionFits (length b)) ss
unfolding parse_sections
parse_sections-SectionFits b entry zero [] e = (refl, tt)
parse_sections-SectionFits b entry zero (s ∷ ss) e = cc
parse_sections-SectionFits b entry (suc n) [] e = ground arith
parse_sections-SectionFits b entry (suc n) (s ∷ ss) e =
    ground
      (arith, parse_section-SectionFits b entry s, parse_sections-SectionFits b (entry + 40) n ss)

parse_headers_tests :
    (b : Bytes) (nt : ℕ) (im : Image)
    → parse_headers b nt ≡ ok im
    → (im.bytes ≡ b)
      × (im.nt_offset ≡ nt)
      × ((im.machine ≡ machine_i386) ⊎ (im.machine ≡ machine_amd64))
      × (1 ≤ im.section_count)
      × (im.section_count ≤ 96)
      × (parse_optional_header b (nt + 24) im.optional_header_bytes ≡ ok im.header)
      × (parse_sections b (nt + 24 + im.optional_header_bytes) im.section_count ≡ ok im.sections)
      × (nt + 24 + im.optional_header_bytes + im.section_count * 40 ≤ length b)
      × (nt + 24 + im.optional_header_bytes + im.section_count * 40 ≤ im.size_of_headers)
unfolding parse_headers
parse_headers_tests b nt im e =
    ground (
      arith,
      span_ok_bounds (length b) (nt + 24 + im.optional_header_bytes) (im.section_count * 40),
    )

parse_tests :
    (b : Bytes) (im : Image)
    → parse b ≡ ok im
    → (parse_headers b im.nt_offset ≡ ok im) × (im.nt_offset % 4 ≡ 0) × (64 ≤ im.nt_offset)
unfolding parse read_u32
parse_tests b im e =
    ground (arith, parse_headers_tests b (u32 b 0x3c) im, bit_and_low 2 (u32 b 0x3c))

-- An image that was parsed is the given span with its headers and sections consistent.
pub parse-IsWellFormed :
    (b : Bytes) (im : Image) → parse b ≡ ok im → IsWellFormed im × (im.bytes ≡ b)
parse-IsWellFormed b im e =
    let (rest, aligned, behind) = parse_tests b im e in
    let t = parse_headers_tests b im.nt_offset im rest in
    let sections =
      parse_sections-SectionFits b (im.nt_offset + 24 + im.optional_header_bytes) im.section_count
        im.sections t.6 in
    let size : length im.bytes ≡ length b = ap length t.0 in
    (
      record {
        header_fits =
            parse_optional_header-HeaderFits b (im.nt_offset + 24) im.optional_header_bytes
              im.header t.5;
        nt_aligned = aligned;
        nt_behind_dos = behind;
        cpu = t.2;
        some_sections = t.3;
        few_sections = t.4;
        all_sections = sections.0;
        table_in_file = omega (arith, t.7);
        table_in_headers = t.8;
        sections_fit = rw size sections.1;
      },
      t.0,
    )
