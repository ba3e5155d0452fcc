-- ===== src/Pe/Resource/Strings.antt =====
-- pe_resource_string: the block of 16 strings, and the one that is wanted.
use ps5_homebrew_lab.Common.{
  ℕ, zero, suc, ◌+◌, ◌-◌, ◌*◌, ◌/◌, ◌%◌, ◌≤◌, ◌<◌, ◌≡◌, ◌≢◌, true, false, ◌||◌, ltb, ◌==◌,
  if◌then◌else◌, ok, fault, >>=-eq-ok, >>=-ne-fault, refuse, arith, Bool-cases, inl, inr,
  precondition, malformed, truncated,
}
use ps5_homebrew_lab.Pe.Bytes.{read_u16}
use ps5_homebrew_lab.Pe.Image.{Image, image_size}
use ps5_homebrew_lab.Pe.Import.Safety.{refuse-ne-fault}
use ps5_homebrew_lab.Pe.Resource.{Resource, entry, subtable, find, scan_strings, string, is_high}
use ps5_homebrew_lab.Pe.Resource.Safety.{find-ne-fault, resource_data-inside, u16-ne-fault}

module _ (im : Image) where
  -- A resource that is found is not empty and lies in the file.
  find-inside :
      (type name lang : ℕ) (r : Resource)
      → find im type name lang ≡ ok r
      → (0 < r.size) × (r.offset + r.size ≤ image_size im)
  unfolding find
  find-inside type name lang r e =
      let (_, t₁, e₁) = >>=-eq-ok (refuse (is_high type || is_high name) precondition) _ e in
      let (a, f₁, e₂) = >>=-eq-ok (entry im 0 type false) _ e₁ in
      let (names, f₂, e₃) = >>=-eq-ok (subtable a.0) _ e₂ in
      let (_, t₂, e₄) = >>=-eq-ok (refuse (names == 0) malformed) _ e₃ in
      let (b, f₃, e₅) = >>=-eq-ok (entry im names name false) _ e₄ in
      let (langs, f₄, e₆) = >>=-eq-ok (subtable b.0) _ e₅ in
      let (_, t₃, e₇) = >>=-eq-ok (refuse (langs == 0 || langs == names) malformed) _ e₆ in
      let (c, f₅, e₈) = >>=-eq-ok (entry im langs lang true) _ e₇ in
      resource_data-inside im c.0 c.1 r e₈

  module _ (r : Resource) (inside : r.offset + r.size ≤ image_size im) where
    room :
        (at : ℕ)
        → refuse (ltb r.size at || ltb (r.size - at) 2) truncated ≡ ok tt
        → r.offset + at + 2 ≤ image_size im
    room at e = ground (arith, inside)

    -- The string at the cursor lies in the file, if it is the one that is wanted.
    chosen :
        (wanted i at n : ℕ) (selected : ℕ × ℕ)
        → refuse (ltb r.size at || ltb (r.size - at) 2) truncated ≡ ok tt
        → refuse (ltb ((r.size - (at + 2)) / 2) n) truncated ≡ ok tt
        → selected.0 + selected.1 * 2 ≤ image_size im
        → (if i == wanted then (r.offset + (at + 2), n) else selected).0
            + (if i == wanted then (r.offset + (at + 2), n) else selected).1 * 2
          ≤ image_size im
    chosen wanted i at n selected e f h = elim (Bool-cases (i == wanted)) [
      | inl here ↦
          let start : at + 2 ≤ r.size = ground arith in
          let units : n ≤ (r.size - (at + 2)) / 2 = ground arith in
          rw here (omega (arith, inside, start, units))
      | inr there ↦ rw there h
    ]

    scan_strings-ne-fault :
        (wanted i left at : ℕ) (selected : ℕ × ℕ)
        → scan_strings im r wanted i left at selected ≢ fault
    unfolding scan_strings
    scan_strings-ne-fault wanted i zero at selected = λ h. cc
    scan_strings-ne-fault wanted i (suc left) at selected =
        >>=-ne-fault (refuse (ltb r.size at || ltb (r.size - at) 2) truncated) _
          (refuse-ne-fault _ truncated)
          λ _ passed.
            >>=-ne-fault (read_u16 im.bytes (r.offset + at)) _
              (u16-ne-fault im (r.offset + at) (room at passed))
              λ n _.
                >>=-ne-fault (refuse (ltb ((r.size - (at + 2)) / 2) n) truncated) _
                  (refuse-ne-fault _ truncated)
                  λ _ _. scan_strings-ne-fault wanted (i + 1) left (at + 2 + n * 2) _

    scan_strings-inside :
        (wanted i left at : ℕ) (selected : ℕ × ℕ) (p n : ℕ)
        → scan_strings im r wanted i left at selected ≡ ok (p, n)
        → selected.0 + selected.1 * 2 ≤ image_size im
        → p + n * 2 ≤ image_size im
    unfolding scan_strings
    scan_strings-inside wanted i zero at selected p n e h =
        let place : selected.0 ≡ p = cc in
        let units : selected.1 ≡ n = cc in rw (← place, ← units) h
    scan_strings-inside wanted i (suc left) at selected p n e h =
        let (_, t₁, e₁) = >>=-eq-ok (refuse (ltb r.size at || ltb (r.size - at) 2) truncated) _ e in
        let (u, read, e₂) = >>=-eq-ok (read_u16 im.bytes (r.offset + at)) _ e₁ in
        let (_, t₂, e₃) = >>=-eq-ok (refuse (ltb ((r.size - (at + 2)) / 2) u) truncated) _ e₂ in
        scan_strings-inside wanted (i + 1) left (at + 2 + u * 2) _ p n e₃
          (chosen wanted i at u selected t₁ t₂ h)

  -- A string that is found lies in the file.
  pub string-inside : (id lang p n : ℕ) → string im id lang ≡ ok (p, n) → p + n * 2 ≤ image_size im
  unfolding string
  string-inside id lang p n e =
      let (_, t₁, e₁) = >>=-eq-ok (refuse (ltb 0xffff id) precondition) _ e in
      let (r, found, e₂) = >>=-eq-ok (find im 6 (id / 16 + 1) lang) _ e₁ in
      scan_strings-inside r (find-inside 6 (id / 16 + 1) lang r found).1 (id % 16) 0 16 0 (0, 0) p n
        e₂ (omega arith)

  -- The search for a string reads no byte outside of the file.
  pub string-ne-fault : (id lang : ℕ) → string im id lang ≢ fault
  unfolding string
  string-ne-fault id lang =
      >>=-ne-fault (refuse (ltb 0xffff id) precondition) _ (refuse-ne-fault _ precondition) λ _ _.
        >>=-ne-fault (find im 6 (id / 16 + 1) lang) _ (find-ne-fault im 6 (id / 16 + 1) lang)
          λ r found.
            scan_strings-ne-fault r (find-inside 6 (id / 16 + 1) lang r found).1 (id % 16) 0 16 0
              (0, 0)
