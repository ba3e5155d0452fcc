-- ===== src/Pe/Layout/Plan.antt =====
-- What a successful pe_layout_plan establishes.
use ps5_homebrew_lab.Common.{
  ℕ, zero, suc, ◌+◌, ◌-◌, ◌%◌, ◌^◌, ◌≤◌, ◌<◌, ◌≡◌, ◌⊎◌, Bool, some, List, [], ◌∷◌, length,
  get_elem?, arith, ltb, ◌==◌, if◌then◌else◌, ok, refuse, >>=-eq-ok, malformed, ap,
}
use ps5_homebrew_lab.Pe.Image.{Section, section_virtual_bytes}
use ps5_homebrew_lab.Pe.Image.Shape.{IsPowerOfTwo}
use ps5_homebrew_lab.Pe.Layout.{
  LayoutSection, Totals, align_up_u32, has, place, plan_section, plan_sections, count_section,
}
use ps5_homebrew_lab.Pe.Layout.Align.{low_part, align_up_u32_lem}

-- A placed section: its span starts behind the last one, on an aligned address, and lies in the
-- image; its bytes are the raw ones, which stand in the file, and zeros.
pub record Mapped (size a image_bytes previous_end : ℕ) (p : LayoutSection) : Type 0 where
  pub behind : previous_end ≤ p.rva
  pub aligned : p.rva % a ≡ 0
  pub span_aligned : p.mapped_bytes % a ≡ 0
  pub nonempty : 0 < p.virtual_bytes
  pub covers : p.virtual_bytes ≤ p.mapped_bytes
  pub inside : p.rva + p.mapped_bytes ≤ image_bytes
  pub raw_covered : p.raw_bytes ≤ p.virtual_bytes
  pub filled : p.raw_bytes + p.zero_bytes ≡ p.mapped_bytes
  pub in_file : (p.raw_bytes ≡ 0) ⊎ (p.raw_offset + p.raw_bytes ≤ size)

abbrev pub Arranged : ℕ → ℕ → ℕ → ℕ → List LayoutSection → ℕ → Type 0
Arranged size a image_bytes previous_end [] end = previous_end ≡ end
Arranged size a image_bytes previous_end (p ∷ ps) end =
    Mapped size a image_bytes previous_end p
    × Arranged size a image_bytes (p.rva + p.mapped_bytes) ps end

module _ (size a image_bytes : ℕ) (power : IsPowerOfTwo a) (small : a < 2 ^ 32) where
  -- The tests that a section has passed, with `mapped` its aligned span.
  plan_section_tests :
      (previous_end : ℕ) (s : Section) (p : LayoutSection)
      → plan_section size a image_bytes previous_end s ≡ ok p
      → (mapped : ℕ) × (align_up_u32 (section_virtual_bytes s) a ≡ ok mapped)
        × (place s mapped ≡ p)
        × (s.virtual_address % a ≡ 0)
        × (previous_end ≤ s.virtual_address)
        × (0 < section_virtual_bytes s)
        × (s.virtual_address + mapped ≤ image_bytes)
        × (((place s mapped).raw_bytes ≡ 0) ⊎ (s.raw_offset + (place s mapped).raw_bytes ≤ size))
  unfolding plan_section
  plan_section_tests previous_end s p e =
      let (_, t₁, e₁) = >>=-eq-ok (refuse (has s.virtual_address (a - 1)) malformed) _ e in
      let (_, t₂, e₂) = >>=-eq-ok (refuse (ltb s.virtual_address previous_end) malformed) _ e₁ in
      let (_, t₃, e₃) = >>=-eq-ok (refuse (section_virtual_bytes s == 0) malformed) _ e₂ in
      let (mapped, up, e₄) = >>=-eq-ok (align_up_u32 (section_virtual_bytes s) a) _ e₃ in
      (
        mapped,
        up,
        ground arith,
        ground (arith, low_part a s.virtual_address power),
        ground arith,
        ground arith,
        ground arith,
        ground arith,
      )

  plan_section-Mapped :
      (previous_end : ℕ) (s : Section) (p : LayoutSection)
      → plan_section size a image_bytes previous_end s ≡ ok p
      → Mapped size a image_bytes previous_end p
  unfolding place
  plan_section-Mapped previous_end s p e =
      let (mapped, up, shape, at, after, some_bytes, room, raw) =
        plan_section_tests previous_end s p e in
      let u = align_up_u32_lem (section_virtual_bytes s) a mapped power small up in
      rw (← shape) (record {
        behind = after;
        aligned = at;
        span_aligned = u.2;
        nonempty = some_bytes;
        covers = u.0;
        inside = room;
        raw_covered = ground arith;
        filled = ground arith;
        in_file = raw;
      })

  pub plan_sections-Arranged :
      (previous_end : ℕ) (t : Totals) (ss : List Section) (ps : List LayoutSection) (end : ℕ)
      (t' : Totals)
      → plan_sections size a image_bytes previous_end t ss ≡ ok (ps, end, t')
      → Arranged size a image_bytes previous_end ps end × (length ps ≡ length ss)
  unfolding plan_sections
  plan_sections-Arranged previous_end t [] ps end t' e = ground arith
  plan_sections-Arranged previous_end t (s ∷ ss) ps end t' e =
      let (p, placed, rest) = >>=-eq-ok (plan_section size a image_bytes previous_end s) _ e in
      let (r, planned, done) =
        >>=-eq-ok (plan_sections size a image_bytes (p.rva + p.mapped_bytes) (count_section t p) ss)
          _ rest in
      let ih =
        plan_sections-Arranged (p.rva + p.mapped_bytes) (count_section t p) ss r.0 r.1 r.2
          planned in
      let shape : ps ≡ p ∷ r.0 = cc in
      let last : end ≡ r.1 = cc in
      rw (shape, last) (((plan_section-Mapped previous_end s p placed), ih.0), ap suc ih.1)

-- The sum of a measure over the placed sections.
unfoldable pub total : (LayoutSection → ℕ) → List LayoutSection → ℕ
total f [] = 0
total f (p ∷ ps) = f p + total f ps

abbrev pub when : Bool → ℕ → ℕ
when b n = if b then n else 0

pub total-le :
    (f : LayoutSection → ℕ) (size a image_bytes previous_end : ℕ) (ps : List LayoutSection)
    (end : ℕ)
    → ((o : ℕ) (p : LayoutSection) → Mapped size a image_bytes o p → f p ≤ p.mapped_bytes)
    → Arranged size a image_bytes previous_end ps end
    → previous_end + total f ps ≤ end
unfolding total
total-le f size a image_bytes previous_end [] end h t = omega arith
total-le f size a image_bytes previous_end (p ∷ ps) end h t = omega (
  arith,
  h previous_end p t.0,
  total-le f size a image_bytes (p.rva + p.mapped_bytes) ps end h t.1,
  t.0.behind,
)

-- The section at a place of the table.
pub Arranged-at :
    (size a image_bytes previous_end : ℕ) (ps : List LayoutSection) (end i : ℕ) (q : LayoutSection)
    → Arranged size a image_bytes previous_end ps end
    → get_elem? ps i ≡ some q
    → Mapped size a image_bytes previous_end q
Arranged-at size a image_bytes previous_end [] end i q t e = cc
Arranged-at size a image_bytes previous_end (p ∷ ps) end zero q t e = ground arith
Arranged-at size a image_bytes previous_end (p ∷ ps) end (suc i) q t e =
    let m = Arranged-at size a image_bytes (p.rva + p.mapped_bytes) ps end i q t.1 e in
    omega (arith, t.0, m)

-- The sections in the order of the table do not overlap.
pub Arranged-apart :
    (size a image_bytes previous_end : ℕ) (ps : List LayoutSection) (end i : ℕ) (q : LayoutSection)
    → Arranged size a image_bytes previous_end ps end
    → get_elem? ps i ≡ some q
    → (previous_end ≤ q.rva) × (q.rva + q.mapped_bytes ≤ image_bytes)
Arranged-apart size a image_bytes previous_end [] end i q t e = cc
Arranged-apart size a image_bytes previous_end (p ∷ ps) end zero q t e = ground arith
Arranged-apart size a image_bytes previous_end (p ∷ ps) end (suc i) q t e =
    omega (
      arith,
      t.0.behind,
      Arranged-apart size a image_bytes (p.rva + p.mapped_bytes) ps end i q t.1 e,
    )

pub Arranged-ordered :
    (size a image_bytes previous_end : ℕ) (ps : List LayoutSection) (end i j : ℕ)
    (p q : LayoutSection)
    → Arranged size a image_bytes previous_end ps end
    → i < j
    → get_elem? ps i ≡ some p
    → get_elem? ps j ≡ some q
    → p.rva + p.mapped_bytes ≤ q.rva
Arranged-ordered size a image_bytes previous_end [] end i j p q t h e f = cc
Arranged-ordered size a image_bytes previous_end (x ∷ ps) end i zero p q t h e f =
    absurd (omega arith)
Arranged-ordered size a image_bytes previous_end (x ∷ ps) end zero (suc j) p q t h e f =
    ground (arith, Arranged-apart size a image_bytes (x.rva + x.mapped_bytes) ps end j q t.1 f)
Arranged-ordered size a image_bytes previous_end (x ∷ ps) end (suc i) (suc j) p q t h e f =
    Arranged-ordered size a image_bytes (x.rva + x.mapped_bytes) ps end i j p q t.1 (omega arith) e
      f
