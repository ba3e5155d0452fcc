-- ===== src/Map/Contents.antt =====
-- What pw_map_image leaves in the image before the relocation: an independent description of every
-- byte, which fill meets.
use ps5_homebrew_lab.Common.{
  ℕ, ◌+◌, ◌-◌, ◌≤◌, ◌<◌, ◌≡◌, inl, inr, false, ◌&&◌, List, [], ◌∷◌, length, ltb, leb, ◌==◌,
  if◌then◌else◌, ok, arith, refl, ap, ◌∙◌, Bool-cases, below_or,
}
use ps5_homebrew_lab.Pe.Bytes.{Bytes, byte}
use ps5_homebrew_lab.Pe.Image.{Image}
use ps5_homebrew_lab.Pe.Image.Shape.{IsWellFormed}
use ps5_homebrew_lab.Pe.Layout.{Layout, LayoutSection, plan}
use ps5_homebrew_lab.Pe.Layout.Plan.{Mapped, Arranged, total-le}
use ps5_homebrew_lab.Pe.Layout.Laws.{plan-IsLaidOut}
use ps5_homebrew_lab.Map.{copy_section, copy_sections, fill}
use ps5_homebrew_lab.Map.Memory.{
  blank, blit, length-blank, byte-blank, length-blit, byte-blit_window, clear_lem, copy_lem,
}

-- The byte at j where the sections are put over a memory that holds d there.
unfoldable pub section_byte : Bytes → List LayoutSection → ℕ → ℕ → ℕ
section_byte file [] j d = d
section_byte file (p ∷ ps) j d =
    if leb p.rva j && ltb j (p.rva + p.raw_bytes)
    then byte file (p.raw_offset + (j - p.rva))
    else section_byte file ps j d

-- The headers stand at the start; then come the raw bytes of the sections, and zeros elsewhere.
unfoldable pub expected : Bytes → Layout → ℕ → ℕ
expected file l j = section_byte file l.sections j (if ltb j l.header_bytes then byte file j else 0)

-- Before the first section nothing is written.
pub section_byte-before :
    (file : Bytes) (size a ib prev : ℕ) (ps : List LayoutSection) (end j d : ℕ)
    → Arranged size a ib prev ps end
    → j < prev
    → section_byte file ps j d ≡ d
unfolding section_byte
section_byte-before file size a ib prev [] end j d t h = refl
section_byte-before file size a ib prev (p ∷ ps) end j d t h =
    let rest =
      section_byte-before file size a ib (p.rva + p.mapped_bytes) ps end j d t.1
        (omega (arith, t.0.behind)) in
    ground (arith, rest, t.0.behind)

-- One section: it is put where it belongs, and nothing else changes.
record IsPut (m file : Bytes) (p : LayoutSection) (out : Bytes) : Type 0 where
  kept : length out ≡ length m
  put :
      (j : ℕ)
      → byte out j ≡ (
          if leb p.rva j && ltb j (p.rva + p.raw_bytes)
          then byte file (p.raw_offset + (j - p.rva))
          else byte m j)

blit-IsPut :
    (m file : Bytes) (p : LayoutSection)
    → p.rva + p.raw_bytes ≤ length m
    → IsPut m file p (blit m p.rva file p.raw_offset p.raw_bytes)
blit-IsPut m file p room = record {
  kept = length-blit m p.rva file p.raw_offset p.raw_bytes;
  put = λ j. byte-blit_window m p.rva file p.raw_offset p.raw_bytes j room;
}

copy_section-IsPut :
    (m file : Bytes) (a ib prev : ℕ) (p : LayoutSection)
    → Mapped (length file) a ib prev p
    → ib ≤ length m
    → (out : Bytes) × (copy_section m file p ≡ ok out) × IsPut m file p out
unfolding copy_section
copy_section-IsPut m file a ib prev p t room = elim (Bool-cases (p.raw_bytes == 0)) [
  | inl none_raw ↦ (m, ground arith, record { kept = refl; put = λ j. ground arith })
  | inr raw ↦
      let in_file : p.raw_offset + p.raw_bytes ≤ length file = ground (arith, t.in_file) in
      let inside : p.rva + p.raw_bytes ≤ length m =
        omega (arith, t.inside, t.covers, t.raw_covered) in
      (
        blit m p.rva file p.raw_offset p.raw_bytes,
        ground (arith, copy_lem m p.rva file p.raw_offset p.raw_bytes inside in_file),
        blit-IsPut m file p inside,
      )
]

-- The sections do not overlap: the first one decides on its own bytes.
one_section :
    (m next file : Bytes) (a ib prev : ℕ) (p : LayoutSection) (ps : List LayoutSection) (end j : ℕ)
    → Arranged (length file) a ib prev (p ∷ ps) end
    → IsPut m file p next
    → section_byte file ps j (byte next j) ≡ section_byte file (p ∷ ps) j (byte m j)
unfolding section_byte
one_section m next file a ib prev p ps end j t put = elim (below_or j (p.rva + p.mapped_bytes)) [
  | inl early ↦
      let here =
        section_byte-before file (length file) a ib (p.rva + p.mapped_bytes) ps end j (byte next j)
          t.1 early in
      let there =
        section_byte-before file (length file) a ib (p.rva + p.mapped_bytes) ps end j (byte m j) t.1
          early in
      ground (arith, here, there, put.put j)
  | inr late ↦
      let same : byte next j ≡ byte m j = ground (arith, put.put j, t.0.covers, t.0.raw_covered) in
      rw same (ground (arith, t.0.covers, t.0.raw_covered))
]

-- All sections, over a memory that holds the image.
copy_sections-byte :
    (m file : Bytes) (a ib prev : ℕ) (ps : List LayoutSection) (end : ℕ)
    → Arranged (length file) a ib prev ps end
    → ib ≤ length m
    → (out : Bytes) × (copy_sections m file ps ≡ ok out)
      × (length out ≡ length m)
      × ((j : ℕ) → byte out j ≡ section_byte file ps j (byte m j))
unfolding copy_sections section_byte
copy_sections-byte m file a ib prev [] end t room = (m, refl, refl, λ j. refl)
copy_sections-byte m file a ib prev (p ∷ ps) end t room =
    let (next, done, put) = copy_section-IsPut m file a ib prev p t.0 room in
    let (out, rest, kept, bytes) =
      copy_sections-byte next file a ib (p.rva + p.mapped_bytes) ps end t.1
        (omega (arith, put.kept)) in
    (
      out,
      rw done rest,
      kept ∙ put.kept,
      λ j. bytes j ∙ one_section m next file a ib prev p ps end j t put,
    )

-- The first bytes of the image: the headers, and zeros behind them.
headed_byte :
    (m file : Bytes) (ib n j : ℕ)
    → n ≤ ib
    → ib ≤ length m
    → j < ib
    → byte (blit (blank m ib) 0 file 0 n) j ≡ (if ltb j n then byte file j else 0)
headed_byte m file ib n j h room inside =
    let cleared = blank m ib in
    let size = length-blank m ib in
    ground (arith, byte-blit_window cleared 0 file 0 n j (omega (arith, size)), byte-blank m ib j)

-- On a well-formed image with its layout, and a memory that holds the image, the filling succeeds, keeps the memory's length,
-- and every byte of the image is the one described: a raw byte of its section, else the byte of the
-- headers, else 0.
pub fill-expected :
    (im : Image) (l : Layout) (m : Bytes)
    → IsWellFormed im
    → plan im ≡ ok l
    → l.image_bytes ≤ length m
    → (out : Bytes) × (fill m im.bytes l ≡ ok out)
      × (length out ≡ length m)
      × ((j : ℕ) → j < l.image_bytes → byte out j ≡ expected im.bytes l j)
unfolding fill expected
fill-expected im l m w e room =
    let d = plan-IsLaidOut im l w e in
    let n = l.header_bytes in
    let reach =
      total-le (λ p. 0) (length im.bytes) im.section_alignment l.image_bytes d.header_end l.sections
        d.end (λ o p t. omega arith) d.arranged in
    let small : n ≤ l.image_bytes = omega (arith, reach, d.headers_before, d.end_inside) in
    let size = length-blank m l.image_bytes in
    let head = blit (blank m l.image_bytes) 0 im.bytes 0 n in
    let sized = length-blit (blank m l.image_bytes) 0 im.bytes 0 n in
    let fits : 0 + n ≤ length (blank m l.image_bytes) = omega (arith, size) in
    let (out, done, kept, bytes) =
      copy_sections-byte head im.bytes im.section_alignment l.image_bytes d.header_end l.sections
        d.end d.arranged (omega (arith, size, sized)) in
    let copied =
      copy_lem (blank m l.image_bytes) 0 im.bytes 0 n fits (omega (arith, d.headers_in_file)) in
    let allowed : ltb (length im.bytes) n ≡ false = ground (arith, d.headers_in_file) in
    (
      out,
      rw (clear_lem m l.image_bytes room, allowed, copied) done,
      kept ∙ sized ∙ size,
      λ j inside.
          bytes j
          ∙ ap (section_byte im.bytes l.sections j)
              (headed_byte m im.bytes l.image_bytes n j small room inside),
    )
