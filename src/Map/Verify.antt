-- ===== src/Map/Verify.antt =====
-- pw_map_verify of projects/prospero-win/src/pw_map.c, with checksum_bytes and all_zero. The counters are
-- uint32_t, the sum of the bytes and the checksum uint64_t; `exec` is what stands at the executable base.
pub mod Laws
pub mod Fill
use ps5_homebrew_lab.Common.{
  ℕ, zero, suc, ◌+◌, ◌*◌, ◌%◌, ◌^◌, bit_xor, Bool, true, false, not, ◌&&◌, ◌||◌, List, [], ◌∷◌,
  length, leb, ltb, ◌==◌, if◌then◌else◌, Outcome, ok, err, fault, ◌>>=◌, ◌>>◌, refuse, bad_state,
}
use ps5_homebrew_lab.Pe.Bytes.{Bytes, byte, read_u8}
use ps5_homebrew_lab.Pe.Image.{Image}
use ps5_homebrew_lab.Pe.Layout.{Layout, LayoutSection, has, prot_exec}
use ps5_homebrew_lab.Map.{Mapped}

pub record Report : Type 0 where
  pub sections_checked : ℕ
  pub bytes_compared : ℕ
  pub raw_mismatches : ℕ
  pub zero_tail_violations : ℕ
  pub alias_mismatches : ℕ
  pub checksum : ℕ
  pub headers_present : ℕ

abbrev pub no_report : Report
no_report = record {
  sections_checked = 0;
  bytes_compared = 0;
  raw_mismatches = 0;
  zero_tail_violations = 0;
  alias_mismatches = 0;
  checksum = 0;
  headers_present = 0;
}

-- The loop of checksum_bytes, over the bytes from a place on.
pub checksum_from : Bytes → ℕ → ℕ → ℕ → Outcome ℕ
checksum_from bytes at zero hash = ok hash
checksum_from bytes at (suc count) hash = do
  b ← read_u8 bytes at
  checksum_from bytes (at + 1) count (bit_xor hash b * 1099511628211 % 2 ^ 64)

pub checksum_bytes : Bytes → ℕ → Outcome ℕ
checksum_bytes bytes count = checksum_from bytes 0 count 1469598103934665603

-- It stops at the first byte that is not 0.
pub all_zero : Bytes → ℕ → ℕ → Outcome Bool
all_zero bytes at zero = ok true
all_zero bytes at (suc count) = do
  b ← read_u8 bytes at
  let rest = all_zero bytes (at + 1) count
  if b == 0 then rest else ok false

-- memcmp compares whole spans, which have to exist: whether they are equal.
pub same_bytes : Bytes → ℕ → Bytes → ℕ → ℕ → Bool
same_bytes a at b from zero = true
same_bytes a at b from (suc count) =
    byte a at == byte b from && same_bytes a (at + 1) b (from + 1) count

pub compare_bytes : Bytes → ℕ → Bytes → ℕ → ℕ → Outcome Bool
compare_bytes a at b from count =
    if leb (at + count) (length a) && leb (from + count) (length b)
    then ok (same_bytes a at b from count)
    else fault

-- `test && !holds()`, as what it adds to a counter.
abbrev pub violations : Bool → Outcome Bool → Outcome ℕ
violations false holds = ok 0
violations true holds = holds >>= λ h. ok (if h then 0 else 1)

-- The bytes at a place, one after the other, until one differs.
pub reads : Bytes → ℕ → List ℕ → Outcome Bool
reads bytes at [] = ok true
reads bytes at (x ∷ xs) = do
  b ← read_u8 bytes at
  let rest = reads bytes ((at + 1) % 2 ^ 32) xs
  if b == x then rest else ok false

pub headers_present : Mapped → Image → Outcome Bool
headers_present m im =
    if not (leb 64 m.image_bytes)
    then ok false
    else (reads m.memory 0 (0x4d ∷ 0x5a ∷ []) >>= λ mz.
        if not mz || not (leb ((im.nt_offset + 4) % 2 ^ 32) m.image_bytes)
        then ok false
        else reads m.memory im.nt_offset (0x50 ∷ 0x45 ∷ 0 ∷ 0 ∷ []))

-- One round of the loop over the sections.
pub verify_section : Mapped → Bytes → Image → Report → LayoutSection → Outcome Report
verify_section m exec im r p = do
  let compared = m.relocs.applied == 0 && not (p.raw_bytes == 0)
  raw ← violations compared (compare_bytes m.memory p.rva im.bytes p.raw_offset p.raw_bytes)
  tail ←
      violations (not (p.zero_bytes == 0))
        (all_zero m.memory ((p.rva + p.raw_bytes) % 2 ^ 32) p.zero_bytes)
  alias ←
      violations (m.aliased_exec && has p.protection prot_exec)
        (compare_bytes m.memory p.rva exec p.rva p.mapped_bytes)
  ok (record {
    sections_checked = (r.sections_checked + 1) % 2 ^ 32;
    bytes_compared = (r.bytes_compared + (if compared then p.raw_bytes else 0)) % 2 ^ 64;
    raw_mismatches = (r.raw_mismatches + raw) % 2 ^ 32;
    zero_tail_violations = (r.zero_tail_violations + tail) % 2 ^ 32;
    alias_mismatches = (r.alias_mismatches + alias) % 2 ^ 32;
    checksum = r.checksum;
    headers_present = r.headers_present;
  })

pub verify_sections : Mapped → Bytes → Image → Report → List LayoutSection → Outcome Report
verify_sections m exec im r [] = ok r
verify_sections m exec im r (p ∷ ps) =
    verify_section m exec im r p >>= λ next. verify_sections m exec im next ps

pub verify : Mapped → Bytes → Image → Layout → Outcome Report
verify m exec im l = do
  refuse (m.region.write_base == 0 || m.protections_applied) bad_state
  headers ← headers_present m im
  r ←
      verify_sections m exec im (record no_report { headers_present = if headers then 1 else 0 })
        l.sections
  sum ← checksum_bytes m.memory m.image_bytes
  ok (record r { checksum = sum })
