-- ===== src/Pe/Layout/Counters.antt =====
-- The counters of pe_layout_plan are the sums over the placed sections: no counter wraps.
use ps5_homebrew_lab.Common.{ℕ, ◌+◌, ◌^◌, ◌≤◌, ◌<◌, ◌≡◌, List, [], ◌∷◌, arith, ok, >>=-eq-ok, refl}
use ps5_homebrew_lab.Pe.Image.{Section, Image, image_size}
use ps5_homebrew_lab.Pe.Image.Shape.{IsWellFormed}
use ps5_homebrew_lab.Pe.Layout.{
  LayoutSection, Totals, Layout, plan_section, plan_sections, count_section, no_totals, plan,
}
use ps5_homebrew_lab.Pe.Layout.Plan.{Mapped, Arranged, total, total-le}
use ps5_homebrew_lab.Pe.Layout.Laws.{plan-IsLaidOut, execs, writes}

abbrev pub mapped : LayoutSection → ℕ
mapped p = p.mapped_bytes

abbrev pub copied : LayoutSection → ℕ
copied p = p.raw_bytes

abbrev zeroed : LayoutSection → ℕ
zeroed p = p.zero_bytes

-- The counters after a run of the loop, where none of them can wrap.
record Counted (t : Totals) (ps : List LayoutSection) (t' : Totals) : Type 0 where
  exec : t'.exec_bytes ≡ t.exec_bytes + total execs ps
  write : t'.write_bytes ≡ t.write_bytes + total writes ps
  copy : t'.copy_bytes ≡ t.copy_bytes + total copied ps
  zeros : t'.zero_bytes ≡ t.zero_bytes + total zeroed ps

record Room (t : Totals) (ps : List LayoutSection) : Type 0 where
  exec : t.exec_bytes + total execs ps < 2 ^ 64
  write : t.write_bytes + total writes ps < 2 ^ 64
  copy : t.copy_bytes + total copied ps < 2 ^ 64
  zeros : t.zero_bytes + total zeroed ps < 2 ^ 64

-- One round of the loop.
count_section-Room :
    (t : Totals) (p : LayoutSection) (ps : List LayoutSection)
    → Room t (p ∷ ps)
    → Room (count_section t p) ps
unfolding count_section execs writes total
count_section-Room t p ps r = ground arith

count_section-Counted :
    (t : Totals) (p : LayoutSection) (ps : List LayoutSection) (t' : Totals)
    → Room t (p ∷ ps)
    → Counted (count_section t p) ps t'
    → Counted t (p ∷ ps) t'
unfolding count_section execs writes total
count_section-Counted t p ps t' r c = ground arith

plan_sections-Counted :
    (size a image_bytes previous_end : ℕ) (t : Totals) (ss : List Section) (ps : List LayoutSection)
    (end : ℕ) (t' : Totals)
    → plan_sections size a image_bytes previous_end t ss ≡ ok (ps, end, t')
    → Room t ps
    → Counted t ps t'
unfolding plan_sections total
plan_sections-Counted size a image_bytes previous_end t [] ps end t' e r = ground arith
plan_sections-Counted size a image_bytes previous_end t (s ∷ ss) ps end t' e r =
    let (p, placed, rest) = >>=-eq-ok (plan_section size a image_bytes previous_end s) _ e in
    let (q, planned, done) =
      >>=-eq-ok (plan_sections size a image_bytes (p.rva + p.mapped_bytes) (count_section t p) ss) _
        rest in
    let shape : ps ≡ p ∷ q.0 = cc in
    let last : t' ≡ q.2 = cc in
    let room : Room t (p ∷ q.0) = rw shape at r in
    rw (shape, last)
      (count_section-Counted t p q.0 q.2 room (
        plan_sections-Counted size a image_bytes (p.rva + p.mapped_bytes) (count_section t p) ss q.0
          q.1 q.2 planned (count_section-Room t p q.0 room)))

total-copied-zeroed :
    (size a image_bytes previous_end : ℕ) (ps : List LayoutSection) (end : ℕ)
    → Arranged size a image_bytes previous_end ps end
    → total copied ps + total zeroed ps ≡ total mapped ps
unfolding total
total-copied-zeroed size a image_bytes previous_end [] end t = refl
total-copied-zeroed size a image_bytes previous_end (p ∷ ps) end t =
    omega (
      arith,
      t.0.filled,
      total-copied-zeroed size a image_bytes (p.rva + p.mapped_bytes) ps end t.1,
    )

-- The counters of the layout of a well-formed image are the sums of the spans of the executable and of the writable sections,
-- and of the copied and of the zeroed bytes, which make up the spans of all sections together and
-- fit the image.
pub plan_totals :
    (im : Image) (l : Layout)
    → IsWellFormed im
    → plan im ≡ ok l
    → (l.totals.exec_bytes ≡ total execs l.sections)
      × (l.totals.write_bytes ≡ total writes l.sections)
      × (l.totals.copy_bytes ≡ total copied l.sections)
      × (l.totals.copy_bytes + l.totals.zero_bytes ≡ total mapped l.sections)
      × (l.totals.copy_bytes + l.totals.zero_bytes ≤ l.image_bytes)
unfolding execs writes
plan_totals im l w e =
    let d = plan-IsLaidOut im l w e in
    let size = image_size im in
    let a = im.section_alignment in
    let bound =
      λ (f : LayoutSection → ℕ)
          (h : (o : ℕ) (p : LayoutSection)
            → Mapped size a l.image_bytes o p
            → f p ≤ p.mapped_bytes).
        total-le f size a l.image_bytes d.header_end l.sections d.end h d.arranged in
    let all = bound mapped (λ o p m. omega arith) in
    let runs = bound execs (λ o p m. ground arith) in
    let written = bound writes (λ o p m. ground arith) in
    let parts = total-copied-zeroed size a l.image_bytes d.header_end l.sections d.end d.arranged in
    let room : Room no_totals l.sections =
      omega (arith, d.word, d.end_inside, all, runs, written, parts) in
    let c =
      plan_sections-Counted size a l.image_bytes d.header_end no_totals im.sections l.sections d.end
        l.totals d.counted room in
    omega (arith, c.exec, c.write, c.copy, c.zeros, parts, all, d.end_inside)
