-- ===== src/Pe/Layout.antt =====
-- projects/prospero-win/src/pe_layout.h and pe_layout.c: the reservation, the spans and the
-- protections that a manual mapper needs. `sections` holds the section_count entries that are filled in.
pub mod Align
pub mod Plan
pub mod Laws
pub mod Counters
pub mod Tests
use ps5_homebrew_lab.Common.{
  ℕ, ◌+◌, ◌-◌, ◌%◌, ◌^◌, bit_and, Bool, true, false, not, ◌&&◌, ◌||◌, Option, none, some, List, [],
  ◌∷◌, length, ltb, leb, ◌==◌, if◌then◌else◌, Outcome, ok, err, ◌>>=◌, ◌>>◌, refuse, unsupported,
  truncated, malformed, overflow, flag, min,
}
use ps5_homebrew_lab.Pe.Bytes.{Bytes}
use ps5_homebrew_lab.Pe.Image.{
  Section, Directory, Image, image_size, directory, section_virtual_bytes,
}

pub record LayoutSection : Type 0 where
  pub name : Bytes
  pub rva : ℕ
  pub mapped_bytes : ℕ
  pub virtual_bytes : ℕ
  pub raw_offset : ℕ
  pub raw_bytes : ℕ
  pub zero_bytes : ℕ
  pub characteristics : ℕ
  pub protection : ℕ
  pub uninitialized : Bool
  pub discardable : Bool
  pub derived_protection : Bool

pub record Totals : Type 0 where
  pub exec_bytes : ℕ
  pub write_bytes : ℕ
  pub copy_bytes : ℕ
  pub zero_bytes : ℕ

pub record Layout : Type 0 where
  pub preferred_base : ℕ
  pub image_bytes : ℕ
  pub header_bytes : ℕ
  pub section_alignment : ℕ
  pub entry_point : ℕ
  pub totals : Totals
  pub relocatable : Bool
  pub dynamic_base : Bool
  pub nx_compat : Bool
  pub sections : List LayoutSection

abbrev pub prot_read : ℕ
prot_read = 1

abbrev pub prot_write : ℕ
prot_write = 2

abbrev pub prot_exec : ℕ
prot_exec = 4

abbrev pub has : ℕ → ℕ → Bool
has flags mask = not (bit_and flags mask == 0)

-- (value + mask) & ~mask, with mask = alignment - 1
pub align_up_u32 : ℕ → ℕ → Outcome ℕ
align_up_u32 value alignment = do
  let mask = alignment - 1
  refuse (ltb (2 ^ 32 - 1 - mask) value) overflow
  ok (bit_and (value + mask) (2 ^ 32 - 1 - mask))

-- The access bits that a section declares; the three bits are disjoint, so that `|=` is a sum.
abbrev pub declared_protection : ℕ → ℕ
declared_protection flags =
    (if has flags 0x4000_0000 then prot_read else 0)
    + (if has flags 0x8000_0000 then prot_write else 0)
    + (if has flags 0x2000_0000 then prot_exec else 0)

-- The protection, and whether it was derived.
pub protection : ℕ → ℕ × Bool
protection flags =
    if not (declared_protection flags == 0)
    then (declared_protection flags, false)
    else if has flags 0x20
    then (prot_read + prot_exec, true)
    else if has flags 0xc0
    then (prot_read, true)
    else (0, true)

pub place : Section → ℕ → LayoutSection
unfolding protection
place s mapped =
    let virtual = section_virtual_bytes s in
    let raw = if ltb s.raw_size virtual then s.raw_size else virtual in
    record {
      name = s.name;
      rva = s.virtual_address;
      mapped_bytes = mapped;
      virtual_bytes = virtual;
      raw_offset = s.raw_offset;
      raw_bytes = raw;
      zero_bytes = mapped - raw;
      characteristics = s.characteristics;
      protection = (protection s.characteristics).0;
      uninitialized = has s.characteristics 0x80;
      discardable = has s.characteristics 0x0200_0000;
      derived_protection = (protection s.characteristics).1;
    }

-- One round of the loop of pe_layout_plan, up to the copy into the layout.
pub plan_section : ℕ → ℕ → ℕ → ℕ → Section → Outcome LayoutSection
plan_section size alignment image_bytes previous_end s = do
  refuse (has s.virtual_address (alignment - 1)) malformed
  refuse (ltb s.virtual_address previous_end) malformed
  refuse (section_virtual_bytes s == 0) malformed
  mapped ← align_up_u32 (section_virtual_bytes s) alignment
  refuse (ltb image_bytes mapped || ltb (image_bytes - mapped) s.virtual_address) malformed
  let p = place s mapped
  refuse
      (not (p.raw_bytes == 0) && (ltb size s.raw_offset || ltb (size - s.raw_offset) p.raw_bytes))
      truncated
  ok p

abbrev pub no_totals : Totals
no_totals = record { exec_bytes = 0; write_bytes = 0; copy_bytes = 0; zero_bytes = 0 }

-- The four counters are uint64_t.
pub count_section : Totals → LayoutSection → Totals
count_section t p = record {
  exec_bytes = (t.exec_bytes + (if has p.protection prot_exec then p.mapped_bytes else 0)) % 2 ^ 64;
  write_bytes =
      (t.write_bytes + (if has p.protection prot_write then p.mapped_bytes else 0)) % 2 ^ 64;
  copy_bytes = (t.copy_bytes + p.raw_bytes) % 2 ^ 64;
  zero_bytes = (t.zero_bytes + p.zero_bytes) % 2 ^ 64;
}

-- The loop: the sections that are left, the end of the last one and the counters; the results are the
-- placed sections, the end and the counters.
pub plan_sections :
    ℕ → ℕ → ℕ → ℕ → Totals → List Section → Outcome (List LayoutSection × ℕ × Totals)
plan_sections size alignment image_bytes previous_end t [] = ok ([], previous_end, t)
plan_sections size alignment image_bytes previous_end t (s ∷ ss) = do
  p ← plan_section size alignment image_bytes previous_end s
  (rest, end, total) ←
      plan_sections size alignment image_bytes (p.rva + p.mapped_bytes) (count_section t p) ss
  ok (p ∷ rest, end, total)

abbrev pub dir_base_reloc : ℕ
dir_base_reloc = 5

abbrev pub is_present : Option Directory → Bool
is_present none = false
is_present (some d) = not (d.virtual_address == 0) && not (d.size == 0)

pub plan : Image → Outcome Layout
plan im = do
  refuse (ltb im.section_alignment 4096) unsupported
  refuse (has im.image_base (im.section_alignment - 1)) malformed
  refuse (ltb (image_size im) im.size_of_headers) truncated
  image_bytes ← align_up_u32 im.size_of_image im.section_alignment
  header_span ← align_up_u32 im.size_of_headers im.section_alignment
  refuse (ltb image_bytes header_span) malformed
  (placed, end, total) ←
      plan_sections (image_size im) im.section_alignment image_bytes header_span no_totals
        im.sections
  refuse (ltb image_bytes end) malformed
  refuse (not (im.entry_point == 0) && leb image_bytes im.entry_point) malformed
  ok (record {
    preferred_base = im.image_base;
    image_bytes = image_bytes;
    header_bytes = im.size_of_headers;
    section_alignment = im.section_alignment;
    entry_point = im.entry_point;
    totals = total;
    relocatable = is_present (directory im dir_base_reloc);
    dynamic_base = has im.dll_characteristics 0x40;
    nx_compat = has im.dll_characteristics 0x100;
    sections = placed;
  })
