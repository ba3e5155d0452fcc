-- ===== src/Pe/Layout/Laws.antt =====
-- pe_layout_plan on a parsed image: where the sections lie, and what the counters hold.
use ps5_homebrew_lab.Common.{
  ℕ, ◌+◌, ◌%◌, ◌^◌, ◌≤◌, ◌<◌, ◌≡◌, ◌⊎◌, not, ◌&&◌, some, length, get_elem?, arith, if◌then◌else◌,
  ok, value_of, ◌∙◌, ◌||◌,
}
use ps5_homebrew_lab.Pe.Image.{Image, image_size}
use ps5_homebrew_lab.Pe.Image.Shape.{IsWellFormed}
use ps5_homebrew_lab.Pe.Layout.{
  LayoutSection, Layout, align_up_u32, has, plan_sections, no_totals, plan, prot_exec, prot_write,
  protection,
}
use ps5_homebrew_lab.Pe.Layout.Align.{low_part, align_up_u32_lem}
use ps5_homebrew_lab.Pe.Layout.Plan.{
  Arranged, Arranged-at, total-le, Arranged-ordered, plan_sections-Arranged,
}

unfoldable pub execs : LayoutSection → ℕ
execs p = if has p.protection prot_exec then p.mapped_bytes else 0

unfoldable pub writes : LayoutSection → ℕ
writes p = if has p.protection prot_write then p.mapped_bytes else 0

-- What is known of a layout: the image is reserved whole and aligned, and its parts lie in it.
pub record IsLaidOut (im : Image) (l : Layout) : Type 0 where
  pub base_aligned : l.preferred_base % im.section_alignment ≡ 0
  pub whole : im.size_of_image ≤ l.image_bytes
  pub span_aligned : l.image_bytes % im.section_alignment ≡ 0
  pub word : l.image_bytes < 2 ^ 32
  pub paged : 4096 ≤ im.section_alignment
  pub headers_in_file : l.header_bytes ≤ image_size im
  pub entry_inside : (l.entry_point ≡ 0) ⊎ (l.entry_point < l.image_bytes)
  pub all_sections : length l.sections ≡ im.section_count
  pub header_end : ℕ
  pub end : ℕ
  pub headers_before : l.header_bytes ≤ header_end
  pub arranged :
      Arranged (image_size im) im.section_alignment l.image_bytes header_end l.sections end
  pub end_inside : end ≤ l.image_bytes
  pub counted :
      plan_sections
        (image_size im)
        im.section_alignment
        l.image_bytes
        header_end
        no_totals
        im.sections
      ≡ ok (l.sections, end, l.totals)

module _ (im : Image) (l : Layout) (w : IsWellFormed im) (e : plan im ≡ ok l) where
  plan_tests :
      (4096 ≤ im.section_alignment)
      × (im.image_base % im.section_alignment ≡ 0)
      × (im.size_of_headers ≤ image_size im)
      × (align_up_u32 im.size_of_image im.section_alignment ≡ ok l.image_bytes)
      × (l.preferred_base ≡ im.image_base)
      × (l.header_bytes ≡ im.size_of_headers)
      × (l.entry_point ≡ im.entry_point)
      × ((im.entry_point ≡ 0) ⊎ (im.entry_point < l.image_bytes))
  unfolding plan
  plan_tests =
      ground (arith, low_part im.section_alignment im.image_base w.header_fits.section_power)

  plan_header_span : (span : ℕ) × (align_up_u32 im.size_of_headers im.section_alignment ≡ ok span)
  unfolding plan
  plan_header_span =
      value_of (align_up_u32 im.size_of_headers im.section_alignment) (λ x h. ground arith)
        (λ h. ground arith)

  plan_loop :
      (span : ℕ)
      → align_up_u32 im.size_of_headers im.section_alignment ≡ ok span
      → (end : ℕ) × (end ≤ l.image_bytes)
        × (plan_sections
              (image_size im)
              im.section_alignment
              l.image_bytes
              span
              no_totals
              im.sections
            ≡ ok (l.sections, end, l.totals))
  unfolding plan
  plan_loop span up =
      let same = plan_tests.3 in
      let (r, planned) =
        value_of
          (plan_sections (image_size im) im.section_alignment l.image_bytes span no_totals
            im.sections)
          (λ x h. ground arith) (λ h. ground arith) in
      (r.1, ground arith, ground arith)

  pub plan-IsLaidOut : IsLaidOut im l
  plan-IsLaidOut =
      let f = w.header_fits in
      let t = plan_tests in
      let (span, up) = plan_header_span in
      let (last, inside, planned) = plan_loop span up in
      let a =
        align_up_u32_lem im.size_of_image im.section_alignment l.image_bytes f.section_power
          f.alignment_word t.3 in
      let b =
        align_up_u32_lem im.size_of_headers im.section_alignment span f.section_power
          f.alignment_word up in
      let s =
        plan_sections-Arranged (image_size im) im.section_alignment l.image_bytes f.section_power
          f.alignment_word span no_totals im.sections l.sections last l.totals planned in
      record {
        base_aligned = rw t.4 t.1;
        whole = a.0;
        span_aligned = a.2;
        word = a.3;
        paged = t.0;
        headers_in_file = omega (arith, t);
        entry_inside = omega (arith, t);
        all_sections = s.1 ∙ w.all_sections;
        header_end = span;
        end = last;
        headers_before = omega (arith, t, b);
        arranged = s.0;
        end_inside = inside;
        counted = planned;
      }

-- In the layout of a well-formed image, the section at a place of the table lies, aligned, behind the headers and in the image; its bytes
-- are the raw ones, which stand in the file, and zeros.
pub plan_section_at :
    (im : Image) (l : Layout) (i : ℕ) (p : LayoutSection)
    → IsWellFormed im
    → plan im ≡ ok l
    → get_elem? l.sections i ≡ some p
    → (l.header_bytes ≤ p.rva)
      × (p.rva % im.section_alignment ≡ 0)
      × (p.rva + p.mapped_bytes ≤ l.image_bytes)
      × (0 < p.virtual_bytes)
      × (p.virtual_bytes ≤ p.mapped_bytes)
      × (p.raw_bytes + p.zero_bytes ≡ p.mapped_bytes)
      × ((p.raw_bytes ≡ 0) ⊎ (p.raw_offset + p.raw_bytes ≤ image_size im))
plan_section_at im l i p w e at =
    let d = plan-IsLaidOut im l w e in
    let m =
      Arranged-at (image_size im) im.section_alignment l.image_bytes d.header_end l.sections d.end i
        p d.arranged at in
    omega (arith, d.headers_before, m)

-- In the layout of a well-formed image two sections never overlap: the one that stands first in the table ends before the other starts.
pub plan_disjoint :
    (im : Image) (l : Layout) (i j : ℕ) (p q : LayoutSection)
    → IsWellFormed im
    → plan im ≡ ok l
    → i < j
    → get_elem? l.sections i ≡ some p
    → get_elem? l.sections j ≡ some q
    → p.rva + p.mapped_bytes ≤ q.rva
plan_disjoint im l i j p q w e h at_i at_j =
    let d = plan-IsLaidOut im l w e in
    Arranged-ordered (image_size im) im.section_alignment l.image_bytes d.header_end l.sections
      d.end i j p q d.arranged h at_i at_j

-- A well-formed image that has a layout is reserved whole, in aligned pages, and starts with headers that the file holds; a
-- program starts in it; no section of the table is left out.
pub plan_image :
    (im : Image) (l : Layout)
    → IsWellFormed im
    → plan im ≡ ok l
    → (im.size_of_image ≤ l.image_bytes)
      × (l.image_bytes % im.section_alignment ≡ 0)
      × (l.image_bytes < 2 ^ 32)
      × (l.preferred_base % im.section_alignment ≡ 0)
      × (l.header_bytes ≤ image_size im)
      × (l.header_bytes ≤ l.image_bytes)
      × ((l.entry_point ≡ 0) ⊎ (l.entry_point < l.image_bytes))
      × (length l.sections ≡ im.section_count)
plan_image im l w e =
    let d = plan-IsLaidOut im l w e in
    let inside =
      total-le (λ _. 0) (image_size im) im.section_alignment l.image_bytes d.header_end l.sections
        d.end (λ o p m. omega arith) d.arranged in
    omega (arith, d, inside)

-- A mapped section is writable exactly if it is declared so, and executable exactly if it is
-- declared so or is code that declares no access at all; only what declares no access is derived.
pub protection_lem :
    (flags : ℕ)
    → (has (protection flags).0 prot_write ≡ has flags 0x8000_0000)
      × (has (protection flags).0 prot_exec
          ≡ (has flags 0x2000_0000 || ((protection flags).1 && has flags 0x20)))
      × ((protection flags).1
          ≡ not (has flags 0x4000_0000 || has flags 0x8000_0000 || has flags 0x2000_0000))
unfolding protection
protection_lem flags = ground arith
