-- ===== src/Pe/Image/Lookup.antt =====
-- pe_image_section_for_rva and pe_image_file_offset.
use ps5_homebrew_lab.Common.{
  ℕ, ◌+◌, ◌-◌, ◌≤◌, ◌<◌, ◌≡◌, ◌≢◌, ◌⊎◌, ◌&&◌, not, none, some, List, [], ◌∷◌, arith, ltb, ◌==◌, ok,
  err, fault, truncated, inl, inr, Bool-cases, Option-cases, subst,
}
use ps5_homebrew_lab.Pe.Bytes.{span_ok_bounds, span_ok_complete}
use ps5_homebrew_lab.Pe.Image.{
  Section, Image, owns, section_virtual_bytes, first_owner, section_for_rva, offset_in,
  offset_in_headers, or_not_found, file_offset, image_size,
}
use ps5_homebrew_lab.Pe.Image.Shape.{All, SectionFits, IsWellFormed}

-- The span of memory of a section, from its address on.
abbrev pub Contains : Section → ℕ → Type 0
Contains s rva = (s.virtual_address ≤ rva) × (rva < s.virtual_address + section_virtual_bytes s)

pub first_owner-All {κ} :
    (P : Section → Type κ) (ss : List Section) (rva : ℕ) (s : Section)
    → first_owner ss rva ≡ some s
    → All P ss
    → P s
unfolding first_owner
first_owner-All P [] rva s e a = absurd (cc)
first_owner-All P (x ∷ ss) rva s e a =
    elim (Bool-cases (not (section_virtual_bytes x == 0) && owns x rva)) [
      | inl hit ↦ let found = rw hit at e in let same : x ≡ s = cc in subst P same a.0
      | inr miss ↦ first_owner-All P ss rva s (rw miss at e) a.1
    ]

pub first_owner-Contains :
    (ss : List Section) (rva : ℕ) (s : Section) → first_owner ss rva ≡ some s → Contains s rva
unfolding first_owner
first_owner-Contains [] rva s e = cc
first_owner-Contains (x ∷ ss) rva s e = ground (arith, first_owner-Contains ss rva s)

first_owner-none :
    (ss : List Section) (rva : ℕ) → first_owner ss rva ≡ none → All (λ s. ¬ Contains s rva) ss
unfolding first_owner
first_owner-none [] rva e = tt
first_owner-none (x ∷ ss) rva e = (λ c. ground arith, first_owner-none ss rva (ground arith))

-- pe_image_section_for_rva answers with a section that holds the address, and finds one if there is
-- one.
pub section_for_rva_sound :
    (im : Image) (rva : ℕ) (s : Section) → section_for_rva im rva ≡ some s → Contains s rva
unfolding section_for_rva
section_for_rva_sound im rva s e = first_owner-Contains im.sections rva s e

pub section_for_rva-none :
    (im : Image) (rva : ℕ) → section_for_rva im rva ≡ none → All (λ s. ¬ Contains s rva) im.sections
unfolding section_for_rva
section_for_rva-none im rva e = first_owner-none im.sections rva e

section_for_rva-All {κ} :
    (P : Section → Type κ) (im : Image) (rva : ℕ) (s : Section)
    → section_for_rva im rva ≡ some s
    → All P im.sections
    → P s
unfolding section_for_rva
section_for_rva-All P im rva s e a = first_owner-All P im.sections rva s e a

offset_in_sound :
    (im : Image) (rva bytes : ℕ) (s : Section) (offset : ℕ)
    → offset_in im rva bytes s ≡ ok offset
    → (offset + bytes ≤ image_size im)
      × (rva - s.virtual_address + bytes ≤ s.raw_size)
      × (offset ≡ s.raw_offset + (rva - s.virtual_address))
unfolding offset_in
offset_in_sound im rva bytes s offset e =
    ground (arith, span_ok_bounds (image_size im) (s.raw_offset + (rva - s.virtual_address)) bytes)

offset_in-truncated :
    (im : Image) (rva bytes : ℕ) (s : Section)
    → SectionFits (image_size im) s
    → offset_in im rva bytes s ≢ err truncated
unfolding offset_in
offset_in-truncated im rva bytes s f =
    ground
      (arith, span_ok_complete (image_size im) (s.raw_offset + (rva - s.virtual_address)) bytes)

-- What pe_image_file_offset answers lies in the file, in the headers or in the raw bytes of the
-- section that holds the address.
pub file_offset_sound :
    (im : Image) (rva bytes offset : ℕ)
    → file_offset im rva bytes ≡ ok offset
    → (0 < bytes)
      × (offset + bytes ≤ image_size im)
      × (((rva + bytes ≤ im.size_of_headers) × (offset ≡ rva))
          ⊎ ((s : Section) × (section_for_rva im rva ≡ some s)
              × (s.virtual_address ≤ rva)
              × (rva - s.virtual_address + bytes ≤ s.raw_size)
              × (offset ≡ s.raw_offset + (rva - s.virtual_address))))
unfolding file_offset
file_offset_sound im rva bytes offset e =
    let positive : 0 < bytes = ground arith in
    elim (Bool-cases (ltb rva im.size_of_headers)) [
      | inl low ↦ (
        positive,
        unfold offset_in_headers in ground (arith, span_ok_bounds (image_size im) rva bytes),
        inl (unfold offset_in_headers in (ground arith, ground arith)),
      )
      | inr high ↦ elim (Option-cases (section_for_rva im rva)) [
        | inl missing ↦ absurd (unfold or_not_found in ground arith)
        | inr (s, found) ↦
            let inside : offset_in im rva bytes s ≡ ok offset =
              unfold or_not_found in ground arith in
            let t = offset_in_sound im rva bytes s offset inside in
            let c = section_for_rva_sound im rva s found in
            (positive, t.0, inr (s, found, c.0, t.1, t.2))
      ]
    ]

-- In a parsed image the last span check of pe_image_file_offset never fails behind the headers.
pub file_offset-truncated :
    (im : Image) (rva bytes : ℕ)
    → IsWellFormed im
    → file_offset im rva bytes ≡ err truncated
    → (rva + bytes ≤ im.size_of_headers) × (image_size im < rva + bytes)
unfolding file_offset
file_offset-truncated im rva bytes w e = elim (Bool-cases (ltb rva im.size_of_headers)) [
  | inl low ↦ unfold offset_in_headers in ground (arith, span_ok_complete (image_size im) rva bytes)
  | inr high ↦ elim (Option-cases (section_for_rva im rva)) [
    | inl missing ↦ absurd (unfold or_not_found in ground arith)
    | inr (s, found) ↦
        let fits =
          section_for_rva-All (SectionFits (image_size im)) im rva s found w.sections_fit in
        absurd (unfold or_not_found in ground (arith, offset_in-truncated im rva bytes s fits))
  ]
]

pub file_offset-ne-fault : (im : Image) (rva bytes : ℕ) → file_offset im rva bytes ≢ fault
unfolding file_offset offset_in_headers or_not_found offset_in
file_offset-ne-fault im rva bytes = ground arith
