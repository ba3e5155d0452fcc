-- ===== src/Map.antt =====
-- projects/prospero-win/src/pw_map.h and pw_map.c, over include/prospero_win_vm.h and src/pw_vm.c: the
-- manual mapper. Backend has the entry points of PwVmBackend, which are parameters over a state of their
-- own. Pointers to structs are present; the address 0 is NULL. What a failed call has filled in is not
-- kept, except for the counters of the protections.
pub mod Memory
pub mod Verify
pub mod Protect
pub mod Contents
pub mod Release
mod Tests
use ps5_homebrew_lab.Common.{
  ℕ, zero, suc, ◌+◌, ◌-◌, ◌%◌, ◌^◌, bit_and, Bool, true, false, not, ◌&&◌, ◌||◌, Option, none, some,
  List, [], ◌∷◌, length, ltb, leb, ◌==◌, if◌then◌else◌, Outcome, ok, err, fault, ◌>>=◌, ◌>>◌,
  refuse, Error, precondition, truncated, unsupported, vm_error,
}
use ps5_homebrew_lab.Pe.Bytes.{Bytes}
use ps5_homebrew_lab.Pe.Image.{Image, image_size, directory, power_of_two, magic_pe32}
use ps5_homebrew_lab.Pe.Layout.{Layout, LayoutSection, has}
use ps5_homebrew_lab.Pe.Reloc.{Stats, Progress, Walk, apply, no_stats}
use ps5_homebrew_lab.Map.Memory.{clear, copy}

pub record Region : Type 0 where
  pub write_base : ℕ
  pub exec_base : ℕ
  pub bytes : ℕ
  pub alignment : ℕ

-- A backend over its context. A reservation comes with what the new mapping holds.
pub record Backend : Type 1 where
  pub State : Type 0
  pub capabilities : ℕ
  pub page_bytes : ℕ
  pub reserve : State → ℕ → ℕ → State × Outcome (Region × Bytes)
  pub reserve_at : Option (State → ℕ → ℕ → ℕ → State × Outcome (Region × Bytes))
  pub commit : State → Region → ℕ → ℕ → ℕ → State × Outcome (Unit {0})
  pub protect : Option (State → Region → ℕ → ℕ → ℕ → State × Outcome (Unit {0}))
  pub release : State → Region → State × Outcome (Unit {0})

abbrev pub cap_protect : ℕ
cap_protect = 2

abbrev pub cap_exact_address : ℕ
cap_exact_address = 4

abbrev pub is_some {ℓ} : {A : Type ℓ} → Option A → Bool
is_some none = false
is_some (some a) = true

-- The entry points that are no Option are present.
pub backend_valid : Backend → Bool
backend_valid b =
    not (has b.capabilities cap_protect && not (is_some b.protect))
    && not (has b.capabilities cap_exact_address && not (is_some b.reserve_at))
    && power_of_two b.page_bytes

pub region_contains : Region → ℕ → ℕ → Bool
region_contains r offset bytes =
    not (r.write_base == 0) && leb bytes r.bytes && leb offset (r.bytes - bytes)

pub record Protection : Type 0 where
  pub protect_calls : ℕ
  pub pages : ℕ
  pub merged_pages : ℕ
  pub wx_pages : ℕ
  pub no_access_pages : ℕ

abbrev pub no_protection : Protection
no_protection = record {
  protect_calls = 0;
  pages = 0;
  merged_pages = 0;
  wx_pages = 0;
  no_access_pages = 0;
}

-- `memory` is what stands at the writable base.
pub record Mapped : Type 0 where
  pub region : Region
  pub memory : Bytes
  pub preferred_base : ℕ
  pub actual_base : ℕ
  pub image_bytes : ℕ
  pub section_count : ℕ
  pub entry_point : ℕ
  pub address_bits : ℕ
  pub relocs : Stats
  pub protection : Protection
  pub protections_applied : Bool
  pub aliased_exec : Bool

-- The copies of the sections that have raw bytes.
pub copy_section : Bytes → Bytes → LayoutSection → Outcome Bytes
copy_section memory file p = if p.raw_bytes == 0 then ok memory else (do
  refuse (ltb (length file) p.raw_offset || ltb (length file - p.raw_offset) p.raw_bytes) truncated
  copy memory p.rva file p.raw_offset p.raw_bytes)

pub copy_sections : Bytes → Bytes → List LayoutSection → Outcome Bytes
copy_sections memory file [] = ok memory
copy_sections memory file (p ∷ ps) =
    copy_section memory file p >>= λ next. copy_sections next file ps

-- The image before its relocation.
pub fill : Bytes → Bytes → Layout → Outcome Bytes
fill memory file l = do
  cleared ← clear memory l.image_bytes
  refuse (ltb (length file) l.header_bytes) truncated
  headed ← copy cleared 0 file 0 l.header_bytes
  copy_sections headed file l.sections

-- `!layout->relocatable` asks for the preferred address; a PE32 image has to lie below 4 GiB.
pub unsuitable : Image → Layout → Region → Bool
unsuitable im l r =
    (not l.relocatable && not (r.exec_base == l.preferred_base))
    || (im.optional_magic == magic_pe32
        && (leb (2 ^ 32) r.exec_base || ltb (2 ^ 32 - r.exec_base) l.image_bytes))

abbrev pub mapping : Image → Layout → Region → Progress → Mapped
mapping im l r p = record {
  region = r;
  memory = p.mapped;
  preferred_base = l.preferred_base;
  actual_base = r.exec_base;
  image_bytes = l.image_bytes;
  section_count = length l.sections;
  entry_point = l.entry_point;
  address_bits = if im.optional_magic == magic_pe32 then 32 else 64;
  relocs = p.stats;
  protection = no_protection;
  protections_applied = false;
  aliased_exec = not (r.exec_base == r.write_base);
}

module _ (b : Backend) where
  open b use {State}

  abbrev pub release_with : State → Region → Error → State × Outcome Mapped
  release_with s r e = ((b.release s r).0, err e)

  abbrev pub reserve_for : State → Layout → State × Outcome (Region × Bytes)
  reserve_for s l =
      if not l.relocatable && has b.capabilities cap_exact_address
      then elim b.reserve_at [
        | none ↦ (s, fault)
        | some reserve_at ↦ reserve_at s l.preferred_base l.image_bytes l.section_alignment
      ]
      else b.reserve s l.image_bytes l.section_alignment

  -- The walk over the relocations, and what follows it.
  pub finish_reloc : State → Image → Layout → Region → Walk → State × Outcome Mapped
  finish_reloc s im l r (p, ok _) = (s, ok (mapping im l r p))
  finish_reloc s im l r (p, err e) = release_with s r e
  finish_reloc s im l r (p, fault) = (s, fault)

  pub finish_fill : State → Image → Layout → Region → Outcome Bytes → State × Outcome Mapped
  finish_fill s im l r (ok memory) =
      finish_reloc s im l r
        (apply memory l.image_bytes (directory im 5) l.preferred_base r.exec_base no_stats)
  finish_fill s im l r (err e) = release_with s r e
  finish_fill s im l r fault = (s, fault)

  pub finish_commit :
      Image → Layout → Region → Bytes → State × Outcome (Unit {0}) → State × Outcome Mapped
  finish_commit im l r memory (s, ok _) = finish_fill s im l r (fill memory im.bytes l)
  finish_commit im l r memory (s, err e) = release_with s r e
  finish_commit im l r memory (s, fault) = (s, fault)

  pub finish_reserve : Image → Layout → State × Outcome (Region × Bytes) → State × Outcome Mapped
  finish_reserve im l (s, err e) = (s, err e)
  finish_reserve im l (s, fault) = (s, fault)
  finish_reserve im l (s, ok (r, memory)) =
      if r.write_base == 0 || r.exec_base == 0 || ltb r.bytes l.image_bytes
      then release_with s r vm_error
      else if unsuitable im l r
      then release_with s r unsupported
      else finish_commit im l r memory (b.commit s r 0 l.image_bytes 3)

  pub map_image : State → Image → Layout → State × Outcome Mapped
  map_image s im l =
      if not (backend_valid b) || l.image_bytes == 0 || length l.sections == 0
      then (s, err precondition)
      else finish_reserve im l (reserve_for s l)

-- `memset(mapped, 0, sizeof(*mapped))`
abbrev pub no_region : Region
no_region = record { write_base = 0; exec_base = 0; bytes = 0; alignment = 0 }

abbrev pub unmapped : Mapped
unmapped = record {
  region = no_region;
  memory = [];
  preferred_base = 0;
  actual_base = 0;
  image_bytes = 0;
  section_count = 0;
  entry_point = 0;
  address_bits = 0;
  relocs = no_stats;
  protection = no_protection;
  protections_applied = false;
  aliased_exec = false;
}

-- The mapping that a release leaves.
abbrev pub after_release {ℓ} :
    {S : Type ℓ} → Mapped → S × Outcome (Unit {0}) → S × Mapped × Outcome (Unit {0})
after_release m (s, ok _) = (s, unmapped, ok tt)
after_release m (s, err e) = (s, m, err e)
after_release m (s, fault) = (s, m, fault)

pub release : (b : Backend) → b.State → Mapped → b.State × Mapped × Outcome (Unit {0})
release b s m =
    if not (backend_valid b)
    then (s, m, err precondition)
    else if m.region.write_base == 0
    then (s, m, ok tt)
    else after_release m (b.release s m.region)

-- An offset from the writable base, where a span lies in the image.
unfoldable pub writable : Mapped → ℕ → ℕ → Option ℕ
writable m rva bytes =
    if m.region.write_base == 0 || bytes == 0
    then none
    else if ltb m.image_bytes bytes || ltb (m.image_bytes - bytes) rva
    then none
    else some rva

pub exec_address : Mapped → ℕ → ℕ
exec_address m rva =
    if m.region.exec_base == 0 || leb m.image_bytes rva then 0 else (m.actual_base + rva) % 2 ^ 64
