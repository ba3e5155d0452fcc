-- ===== src/Pe/Image/Safety.antt =====
-- No call of the parser reads outside of the span that it is given.
use ps5_homebrew_lab.Common.{ℕ, zero, suc, ◌+◌, ◌-◌, ◌*◌, ◌≤◌, ◌≢◌, length, arith, fault, min}
use ps5_homebrew_lab.Pe.Bytes.{
  Bytes, u16, u32, read_u8_ok, read_u16_ok, read_u32_ok, read_u64_ok, span_ok_bounds,
}
use ps5_homebrew_lab.Pe.Image.{
  fixed_bytes, parse_directories, parse_optional_header, read_bytes, parse_section, parse_sections,
  parse_headers, parse, scan_name, directory_entries,
}

parse_directories-ne-fault :
    (b : Bytes) (optional optional_bytes entry n : ℕ)
    → optional + optional_bytes ≤ length b
    → parse_directories b optional optional_bytes entry n ≢ fault
unfolding parse_directories
parse_directories-ne-fault b optional optional_bytes entry zero h = λ e. cc
parse_directories-ne-fault b optional optional_bytes entry (suc n) h = ground (
  arith,
  read_u32_ok b (optional + entry),
  read_u32_ok b (optional + entry + 4),
  parse_directories-ne-fault b optional optional_bytes (entry + 8) n h,
)

parse_optional_header-ne-fault :
    (b : Bytes) (optional optional_bytes : ℕ)
    → optional + optional_bytes ≤ length b
    → parse_optional_header b optional optional_bytes ≢ fault
unfolding parse_optional_header fixed_bytes
parse_optional_header-ne-fault b optional optional_bytes h = ground (
  arith,
  read_u16_ok b optional,
  read_u32_ok b (optional + 0x10),
  read_u32_ok b (optional + 0x1c),
  read_u64_ok b (optional + 0x18),
  read_u32_ok b (optional + 0x20),
  read_u32_ok b (optional + 0x24),
  read_u32_ok b (optional + 0x38),
  read_u32_ok b (optional + 0x3c),
  read_u16_ok b (optional + 0x44),
  read_u16_ok b (optional + 0x46),
  read_u32_ok b (optional + (0x60 - 4)),
  read_u32_ok b (optional + (0x70 - 4)),
  parse_directories-ne-fault b optional optional_bytes 0x60
      (min (u32 b (optional + (0x60 - 4))) directory_entries) h,
  parse_directories-ne-fault b optional optional_bytes 0x70
      (min (u32 b (optional + (0x70 - 4))) directory_entries) h,
)

read_bytes-ne-fault : (b : Bytes) (o n : ℕ) → o + n ≤ length b → read_bytes b o n ≢ fault
unfolding read_bytes
read_bytes-ne-fault b o zero h = λ e. cc
read_bytes-ne-fault b o (suc n) h = ground (arith, read_u8_ok b o, read_bytes-ne-fault b (o + 1) n)

parse_section-ne-fault :
    (b : Bytes) (entry : ℕ) → entry + 40 ≤ length b → parse_section b entry ≢ fault
unfolding parse_section
parse_section-ne-fault b entry h = ground (
  arith,
  read_bytes-ne-fault b entry 8,
  read_u32_ok b (entry + 8),
  read_u32_ok b (entry + 12),
  read_u32_ok b (entry + 16),
  read_u32_ok b (entry + 20),
  read_u32_ok b (entry + 36),
)

parse_sections-ne-fault :
    (b : Bytes) (entry n : ℕ) → entry + n * 40 ≤ length b → parse_sections b entry n ≢ fault
unfolding parse_sections
parse_sections-ne-fault b entry zero h = λ e. cc
parse_sections-ne-fault b entry (suc n) h =
    ground (
      arith,
      parse_section-ne-fault b entry,
      parse_sections-ne-fault b (entry + 40) n (omega arith),
    )

parse_headers-ne-fault : (b : Bytes) (nt : ℕ) → nt + 24 ≤ length b → parse_headers b nt ≢ fault
unfolding parse_headers
parse_headers-ne-fault b nt h = ground (
  arith,
  read_u16_ok b (nt + 4),
  read_u16_ok b (nt + 4 + 2),
  read_u16_ok b (nt + 4 + 16),
  read_u16_ok b (nt + 4 + 18),
  span_ok_bounds (length b) (nt + 24) (u16 b (nt + 4 + 16)),
  parse_optional_header-ne-fault b (nt + 24) (u16 b (nt + 4 + 16)),
  span_ok_bounds (length b) (nt + 24 + u16 b (nt + 4 + 16)) (u16 b (nt + 4 + 2) * 40),
  parse_sections-ne-fault b (nt + 24 + u16 b (nt + 4 + 16)) (u16 b (nt + 4 + 2)),
)

-- Whatever the bytes are, the parser never reads outside of them.
pub parse-ne-fault : (b : Bytes) → parse b ≢ fault
unfolding parse
parse-ne-fault b = ground (
  arith,
  read_u16_ok b 0,
  read_u32_ok b 0x3c,
  span_ok_bounds (length b) (u32 b 0x3c) 24,
  read_u32_ok b (u32 b 0x3c),
  parse_headers-ne-fault b (u32 b 0x3c),
)

pub scan_name-ne-fault : (b : Bytes) (o n : ℕ) → o + n ≤ length b → scan_name b o n ≢ fault
unfolding scan_name
scan_name-ne-fault b o zero h = λ e. cc
scan_name-ne-fault b o (suc n) h = ground (arith, read_u8_ok b o, scan_name-ne-fault b (o + 1) n)
