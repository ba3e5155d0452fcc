-- ===== src/Pe/Reloc/Tests.antt =====
-- A mapped image of 64 bytes with one relocation block of two entries, and the theorems at it.
use ps5_homebrew_lab.Common.{◌≡◌, ◌≢◌, refl, length, replicate, arith, ok, fault, some}
use ps5_homebrew_lab.Pe.Bytes.{Bytes, u16, u32, u64, read_u16, read_u32, read_u64}
use ps5_homebrew_lab.Pe.Image.{Directory}
use ps5_homebrew_lab.Pe.Reloc.{
  Progress, store, write, patch_u32, patch_u64, finish_patch, patch_entry, apply_entry,
  apply_entries, apply_block, apply_blocks, apply_directory, apply_to, apply, delta_of, no_stats,
}
use ps5_homebrew_lab.Pe.Reloc.Safety.{apply-IsSafe}

-- The word at 4 is an address; the block at 32 has a HIGHLOW and an ABSOLUTE entry.
abbrev mapped_image : Bytes
unfolding store
mapped_image = store (store (store (replicate 64 0) 4 4 0x40_1000) 36 4 12) 40 2 0x3004

abbrev moved_image : Bytes
unfolding store
moved_image = store mapped_image 4 4 0x50_1000

abbrev relocations : Directory
relocations = record { virtual_address = 32; size = 12 }

apply_run : apply mapped_image 64 (some relocations) 0x40_0000 0x50_0000 no_stats ≡ (
  record {
    mapped = moved_image;
    stats = record {
      blocks = 1;
      entries = 2;
      applied = 1;
      absolute = 1;
      highlow = 1;
      dir64 = 0;
      high_or_low = 0;
      delta = 0x10_0000;
    };
  },
  ok tt,
)
unfolding apply apply_to apply_directory apply_blocks apply_block apply_entries apply_entry
    patch_entry finish_patch patch_u32 write read_u16 read_u32 u16 u32 delta_of store
apply_run = refl

apply-IsSafe_example :
    (length (apply mapped_image 64 (some relocations) 0x40_0000 0x50_0000 no_stats).0.mapped
      ≡ length mapped_image)
    × ((apply mapped_image 64 (some relocations) 0x40_0000 0x50_0000 no_stats).1 ≢ fault)
unfolding store
apply-IsSafe_example =
    apply-IsSafe mapped_image 64 (some relocations) 0x40_0000 0x50_0000 no_stats (omega arith)
      (omega arith)

abbrev start : Progress
start = record { mapped = mapped_image; stats = no_stats }

patch_run : patch_u32 mapped_image 64 4 0x10_0000 ≡ ok moved_image
unfolding patch_u32 write read_u32 u32 store
patch_run = refl

abbrev wide_image : Bytes
unfolding store
wide_image = store mapped_image 0 8 0x40_1000_0010_0000

patch_run64 : patch_u64 mapped_image 64 0 0x10_0000 ≡ ok wide_image
unfolding patch_u64 write read_u64 u64 u32 store
patch_run64 = refl
