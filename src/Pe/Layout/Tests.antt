-- ===== src/Pe/Layout/Tests.antt =====
-- The layout of a program with two sections, and the theorems on layouts at it.
use ps5_homebrew_lab.Common.{◌+◌, ◌≤◌, ◌≡◌, refl, [], ◌∷◌, arith, true, false, ok}
use ps5_homebrew_lab.Pe.Image.{directory}
use ps5_homebrew_lab.Pe.Image.Tests.{
  text, data_section, program, program-IsWellFormed, length-program,
}
use ps5_homebrew_lab.Pe.Layout.{
  LayoutSection, Layout, Totals, align_up_u32, protection, place, plan_section, count_section,
  plan_sections, plan,
}
use ps5_homebrew_lab.Pe.Layout.Laws.{plan_disjoint}

abbrev pub placed_text : LayoutSection
placed_text = record {
  name = text.name;
  rva = 0x1000;
  mapped_bytes = 0x1000;
  virtual_bytes = 16;
  raw_offset = 272;
  raw_bytes = 16;
  zero_bytes = 4080;
  characteristics = 0x6000_0020;
  protection = 5;
  uninitialized = false;
  discardable = false;
  derived_protection = false;
}

abbrev pub placed_data : LayoutSection
placed_data = record {
  name = data_section.name;
  rva = 0x2000;
  mapped_bytes = 0x1000;
  virtual_bytes = 32;
  raw_offset = 288;
  raw_bytes = 8;
  zero_bytes = 4088;
  characteristics = 0xc000_0040;
  protection = 3;
  uninitialized = false;
  discardable = false;
  derived_protection = false;
}

abbrev pub counters : Totals
counters = record { exec_bytes = 4096; write_bytes = 4096; copy_bytes = 24; zero_bytes = 8168 }

abbrev pub mapping : Layout
mapping = record {
  preferred_base = 0x40_0000;
  image_bytes = 0x3000;
  header_bytes = 272;
  section_alignment = 0x1000;
  entry_point = 0x1000;
  totals = counters;
  relocatable = false;
  dynamic_base = true;
  nx_compat = true;
  sections = placed_text ∷ placed_data ∷ [];
}

pub plan_run : plan program ≡ ok mapping
unfolding directory plan plan_sections plan_section place protection count_section align_up_u32
plan_run = rw length-program refl

plan_disjoint_example : 0x1000 + 0x1000 ≤ 0x2000
plan_disjoint_example =
    plan_disjoint program mapping 0 1 placed_text placed_data program-IsWellFormed plan_run
      (omega arith) refl refl

align_run : align_up_u32 0x1234 0x1000 ≡ ok 0x2000
unfolding align_up_u32
align_run = refl
