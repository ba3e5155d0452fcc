-- ===== src/Pe/Reloc.antt =====
-- projects/prospero-win/src/pe_reloc.h and pe_reloc.c: the base relocations of a mapped image. The
-- mapped bytes and the counters are state that an error leaves as far as it has come; the pointers
-- are present. The host is little-endian, as the console is.
pub mod Store
pub mod Safety
pub mod Fuel
mod Tests
use ps5_homebrew_lab.Common.{
  ℕ, zero, suc, ◌+◌, ◌-◌, ◌*◌, ◌/◌, ◌%◌, ◌^◌, Bool, true, false, not, ◌&&◌, ◌||◌, Option, none,
  some, List, [], ◌∷◌, length, set, ltb, leb, ◌==◌, if◌then◌else◌, Outcome, ok, err, fault, ◌>>=◌,
  ◌>>◌, refuse, precondition, malformed, unsupported,
}
use ps5_homebrew_lab.Pe.Bytes.{Bytes, read_u16, read_u32, read_u64}
use ps5_homebrew_lab.Pe.Image.{Directory}

-- The counters have 32 bits in the source. None of them wraps, since every entry takes 2 bytes of a
-- directory of less than 2^32 bytes.
pub record Stats : Type 0 where
  pub blocks : ℕ
  pub entries : ℕ
  pub applied : ℕ
  pub absolute : ℕ
  pub highlow : ℕ
  pub dir64 : ℕ
  pub high_or_low : ℕ
  pub delta : ℕ

pub record Progress : Type 0 where
  pub mapped : Bytes
  pub stats : Stats

-- What a part of the walk leaves behind, and its status.
abbrev pub Walk : Type 0
Walk = Progress × Outcome (Unit {0})

abbrev pub proceed : Walk → (Progress → Walk) → Walk
proceed (p, ok _) f = f p
proceed (p, err e) f = (p, err e)
proceed (p, fault) f = (p, fault)

-- `n` bytes of a value, the lowest first.
unfoldable pub store : Bytes → ℕ → ℕ → ℕ → Bytes
store m o zero v = m
store m o (suc n) v = store (set m o (v % 256)) (o + 1) n (v / 256)

unfoldable pub write : Bytes → ℕ → ℕ → ℕ → Outcome Bytes
write m o n v = if leb (o + n) (length m) then ok (store m o n v) else fault

pub patch_u16 : Bytes → ℕ → ℕ → ℕ → Outcome Bytes
patch_u16 m image_bytes target addend = do
  refuse (ltb image_bytes 2 || ltb (image_bytes - 2) target) malformed
  value ← read_u16 m target
  write m target 2 ((value + addend) % 2 ^ 16)

pub patch_u32 : Bytes → ℕ → ℕ → ℕ → Outcome Bytes
patch_u32 m image_bytes target addend = do
  refuse (ltb image_bytes 4 || ltb (image_bytes - 4) target) malformed
  value ← read_u32 m target
  write m target 4 ((value + addend) % 2 ^ 32)

pub patch_u64 : Bytes → ℕ → ℕ → ℕ → Outcome Bytes
patch_u64 m image_bytes target addend = do
  refuse (ltb image_bytes 8 || ltb (image_bytes - 8) target) malformed
  value ← read_u64 m target
  write m target 8 ((value + addend) % 2 ^ 64)

-- The entry types.
abbrev pub absolute_type : ℕ
absolute_type = 0

abbrev pub high_type : ℕ
high_type = 1

abbrev pub low_type : ℕ
low_type = 2

abbrev pub highlow_type : ℕ
highlow_type = 3

abbrev pub dir64_type : ℕ
dir64_type = 10

-- The end of a round: the patched bytes and `++stats->applied`, or the status of the patch.
pub finish_patch : Progress → Outcome Bytes → Walk
finish_patch p (ok m) =
    (record p { mapped = m; stats = record p.stats { applied = p.stats.applied + 1 } }, ok tt)
finish_patch p (err e) = (p, err e)
finish_patch p fault = (p, fault)

-- `if (delta == 0u) continue;`
abbrev pub unless_zero : ℕ → Progress → Outcome Bytes → Walk
unless_zero delta p patched = if delta == 0 then (p, ok tt) else finish_patch p patched

-- The switch on the type of an entry, for a target in the image.
pub patch_entry : ℕ → ℕ → ℕ → ℕ → Progress → Walk
patch_entry image_bytes delta kind target p =
    let s = p.stats in
    if kind == highlow_type
    then unless_zero delta (record p { stats = record s { highlow = s.highlow + 1 } })
        (patch_u32 p.mapped image_bytes target (delta % 2 ^ 32))
    else if kind == dir64_type
    then unless_zero delta (record p { stats = record s { dir64 = s.dir64 + 1 } })
        (patch_u64 p.mapped image_bytes target delta)
    else if kind == high_type
    then unless_zero delta (record p { stats = record s { high_or_low = s.high_or_low + 1 } })
        (patch_u16 p.mapped image_bytes target (delta / 2 ^ 16 % 2 ^ 16))
    else if kind == low_type
    then unless_zero delta (record p { stats = record s { high_or_low = s.high_or_low + 1 } })
        (patch_u16 p.mapped image_bytes target (delta % 2 ^ 16))
    else (p, err unsupported)

-- One round of the loop over a block's entries.
pub apply_entry : ℕ → ℕ → ℕ → ℕ → Progress → Walk
apply_entry image_bytes delta block_rva entry p =
    let s = p.stats in
    let kind = entry / 2 ^ 12 in
    let target = (block_rva + entry % 2 ^ 12) % 2 ^ 32 in
    let counted = record p { stats = record s { entries = s.entries + 1 } } in
    if kind == absolute_type
    then (
      record p { stats = record s { entries = s.entries + 1; absolute = s.absolute + 1 } },
      ok tt,
    )
    else if ltb (image_bytes - 1) block_rva || leb image_bytes target
    then (counted, err malformed)
    else patch_entry image_bytes delta kind target counted

-- Goes on with what a read gives.
abbrev pub reading : Progress → Outcome ℕ → (ℕ → Walk) → Walk
reading p (ok x) f = f x
reading p (err e) f = (p, err e)
reading p fault f = (p, fault)

-- The entries that are left; the next one is at `at`.
pub apply_entries : ℕ → ℕ → ℕ → ℕ → ℕ → Progress → Walk
apply_entries image_bytes delta block_rva at zero p = (p, ok tt)
apply_entries image_bytes delta block_rva at (suc n) p = reading p (read_u16 p.mapped at) λ entry.
    proceed (apply_entry image_bytes delta block_rva entry p)
      λ q. apply_entries image_bytes delta block_rva (at + 2) n q

abbrev pub bad_block_bytes : ℕ → ℕ → ℕ → Bool
bad_block_bytes cursor end bytes = ltb bytes 8 || not (bytes % 2 == 0) || ltb (end - cursor) bytes

abbrev pub count_block : Progress → Progress
count_block p = record p { stats = record p.stats { blocks = p.stats.blocks + 1 } }

-- The body of the `while`, with what follows a round as `again`.
pub apply_block : ℕ → ℕ → ℕ → ℕ → Progress → (ℕ → Progress → Walk) → Walk
apply_block image_bytes delta cursor end p again = reading p (read_u32 p.mapped cursor) λ block_rva.
    reading p (read_u32 p.mapped (cursor + 4)) λ block_bytes.
      if block_bytes == 0
      then (p, ok tt)
      else if bad_block_bytes cursor end block_bytes || leb image_bytes block_rva
      then (p, err malformed)
      else proceed
          (apply_entries image_bytes delta block_rva (cursor + 8) ((block_bytes - 8) / 2) p)
          λ q. again ((cursor + block_bytes) % 2 ^ 32) (count_block q)

-- The `while` loop. A round moves the cursor by 8 bytes at least, so that `end - cursor` rounds are
-- enough unless `cursor + 8u` wraps; a loop that would go on without fuel is no result of the source.
pub apply_blocks : ℕ → ℕ → ℕ → ℕ → ℕ → Progress → Walk
apply_blocks zero image_bytes delta end cursor p =
    (p, (if leb ((cursor + 8) % 2 ^ 32) end then fault else ok tt))
apply_blocks (suc fuel) image_bytes delta end cursor p =
    if leb ((cursor + 8) % 2 ^ 32) end
    then apply_block image_bytes delta cursor end p
        (λ c q. apply_blocks fuel image_bytes delta end c q)
    else (p, ok tt)

abbrev pub no_stats : Stats
no_stats = record {
  blocks = 0;
  entries = 0;
  applied = 0;
  absolute = 0;
  highlow = 0;
  dir64 = 0;
  high_or_low = 0;
  delta = 0;
}

-- actual_base - preferred_base, wrapping
unfoldable pub delta_of : ℕ → ℕ → ℕ
delta_of preferred actual = (actual + 2 ^ 64 - preferred) % 2 ^ 64

-- The walk over a directory that is there.
pub apply_directory : Progress → ℕ → ℕ → Directory → Walk
apply_directory p image_bytes delta d =
    if ltb image_bytes d.size || ltb (image_bytes - d.size) d.virtual_address
    then (p, err malformed)
    else apply_blocks d.size image_bytes delta (d.virtual_address + d.size) d.virtual_address p

unfoldable pub apply_to : Progress → ℕ → ℕ → Option Directory → Walk
apply_to p image_bytes delta none = (p, (if delta == 0 then ok tt else err unsupported))
apply_to p image_bytes delta (some d) =
    if d.virtual_address == 0 || d.size == 0
    then (p, (if delta == 0 then ok tt else err unsupported))
    else apply_directory p image_bytes delta d

unfoldable pub apply : Bytes → ℕ → Option Directory → ℕ → ℕ → Stats → Walk
apply m image_bytes directory preferred actual stats =
    if image_bytes == 0
    then (record { mapped = m; stats = stats }, err precondition)
    else let delta = delta_of preferred actual in
      apply_to (record { mapped = m; stats = record no_stats { delta = delta } }) image_bytes delta
        directory
