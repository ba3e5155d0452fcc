-- ===== src/Pe/Resource/Safety.antt =====
-- The resource reader reads in the file alone, and what it finds lies in the file.
use ps5_homebrew_lab.Common.{
  ℕ, zero, suc, ◌+◌, ◌-◌, ◌*◌, ◌%◌, ◌^◌, ◌≤◌, ◌<◌, ◌≡◌, ◌≢◌, Bool, true, false, not, ◌||◌, ◌&&◌,
  Option, none, some, [], ◌∷◌, length, ltb, leb, ◌==◌, if◌then◌else◌, Outcome, ok, fault, >>=-eq-ok,
  >>=-ne-fault, refuse, arith, Bool-cases, inl, inr, precondition, unsupported, malformed, limit,
  overflow, not_found, truncated,
}
use ps5_homebrew_lab.Pe.Bytes.{Bytes, read_u16, read_u32, read_u16_ok, read_u32_ok}
use ps5_homebrew_lab.Pe.Image.{Directory, Image, image_size, directory, file_offset}
use ps5_homebrew_lab.Pe.Image.Lookup.{file_offset_sound, file_offset-ne-fault}
use ps5_homebrew_lab.Pe.Import.Safety.{choice-ne-fault, refuse-ne-fault}
use ps5_homebrew_lab.Pe.Resource.{
  Resource, span_in, span, read_table, Choice, choose, score, scan_entries, no_choice, entry,
  same_text, entry_matches, scan_names, check_name, entry_name, resource_data, subtable, find,
  find_name, ascii_upper, is_high, low_bits,
}

same_table :
    {a b c x y z : ℕ}
    → ◌≡◌ {A = Outcome (ℕ × ℕ × ℕ)} (ok (a, b, c)) (ok (x, y, z))
    → (a ≡ x) × (b ≡ y) × (c ≡ z)
same_table e = (cc, cc, cc)

same_resource : {r x : Resource} → ok r ≡ ok x → r ≡ x
same_resource e = cc

module _ (im : Image) where
  span_in-ne-fault : (offset n : ℕ) (d : Option Directory) → span_in im offset n d ≢ fault
  unfolding span_in
  span_in-ne-fault offset n none = λ h. cc
  span_in-ne-fault offset n (some d) =
      >>=-ne-fault (refuse (d.virtual_address == 0 || d.size == 0) not_found) _
        (refuse-ne-fault _ not_found)
        λ _ _.
          >>=-ne-fault (refuse (ltb d.size offset || ltb (d.size - offset) n) truncated) _
            (refuse-ne-fault _ truncated)
            λ _ _.
              >>=-ne-fault (refuse (ltb (2 ^ 32) (d.virtual_address + offset + n)) overflow) _
                (refuse-ne-fault _ overflow)
                λ _ _. file_offset-ne-fault im ((d.virtual_address + offset) % 2 ^ 32) n

  span-ne-fault : (offset n : ℕ) → span im offset n ≢ fault
  unfolding span
  span-ne-fault offset n = span_in-ne-fault offset n (directory im 2)

  span_in-inside :
      (offset n : ℕ) (d : Option Directory) (p : ℕ)
      → span_in im offset n d ≡ ok p
      → p + n ≤ image_size im
  unfolding span_in
  span_in-inside offset n none p e = cc
  span_in-inside offset n (some d) p e =
      let (_, t₁, e₁) = >>=-eq-ok (refuse (d.virtual_address == 0 || d.size == 0) not_found) _ e in
      let (_, t₂, e₂) =
        >>=-eq-ok (refuse (ltb d.size offset || ltb (d.size - offset) n) truncated) _ e₁ in
      let (_, t₃, e₃) =
        >>=-eq-ok (refuse (ltb (2 ^ 32) (d.virtual_address + offset + n)) overflow) _ e₂ in
      (file_offset_sound im ((d.virtual_address + offset) % 2 ^ 32) n p e₃).1

  span-inside : (offset n p : ℕ) → span im offset n ≡ ok p → p + n ≤ image_size im
  unfolding span
  span-inside offset n p e = span_in-inside offset n (directory im 2) p e

  -- A read of a byte pair or of a word inside the file.
  pub u16-ne-fault : (o : ℕ) → o + 2 ≤ image_size im → read_u16 im.bytes o ≢ fault
  u16-ne-fault o h = ground (arith, read_u16_ok im.bytes o)

  u32-ne-fault : (o : ℕ) → o + 4 ≤ image_size im → read_u32 im.bytes o ≢ fault
  u32-ne-fault o h = ground (arith, read_u32_ok im.bytes o)

  read_table-ne-fault : (table : ℕ) → read_table im table ≢ fault
  unfolding read_table
  read_table-ne-fault table = >>=-ne-fault (span im table 16) _ (span-ne-fault table 16) λ p found.
      let bound = span-inside table 16 p found in
      >>=-ne-fault (read_u16 im.bytes (p + 12)) _ (u16-ne-fault (p + 12) (omega (arith, bound)))
        λ names _.
          >>=-ne-fault (read_u16 im.bytes (p + 14)) _ (u16-ne-fault (p + 14) (omega (arith, bound)))
            λ ids _.
              >>=-ne-fault (refuse (ltb 4096 (names + ids)) limit) _ (refuse-ne-fault _ limit)
                λ _ _.
                  >>=-ne-fault (refuse (ltb (2 ^ 32 - 1 - 16) table) overflow) _
                    (refuse-ne-fault _ overflow)
                    λ _ _.
                      >>=-ne-fault (span im (table + 16) ((names + ids) * 8)) _ (span-ne-fault _ _)
                        λ at _ h. cc

  read_table-inside :
      (table names count at : ℕ)
      → read_table im table ≡ ok (names, count, at)
      → (names ≤ count) × (at + count * 8 ≤ image_size im)
  unfolding read_table
  read_table-inside table names count at e =
      let (p, found, e₁) = >>=-eq-ok (span im table 16) _ e in
      let (n, r₁, e₂) = >>=-eq-ok (read_u16 im.bytes (p + 12)) _ e₁ in
      let (ids, r₂, e₃) = >>=-eq-ok (read_u16 im.bytes (p + 14)) _ e₂ in
      let (_, t₁, e₄) = >>=-eq-ok (refuse (ltb 4096 (n + ids)) limit) _ e₃ in
      let (_, t₂, e₅) = >>=-eq-ok (refuse (ltb (2 ^ 32 - 1 - 16) table) overflow) _ e₄ in
      let (start, there, e₆) = >>=-eq-ok (span im (table + 16) ((n + ids) * 8)) _ e₅ in
      let (first, sum, place) = same_table e₆ in
      let bound = span-inside (table + 16) ((n + ids) * 8) start there in
      (omega (arith, first, sum), rw (← sum, ← place) bound)

  choose-ne-fault :
      (id : ℕ) (language : Bool) (names i name offset : ℕ) (c : Choice)
      → choose id language names i name offset c ≢ fault
  unfolding choose
  choose-ne-fault id language names i name offset c =
      choice-ne-fault (ltb i names) _ _ (choice-ne-fault (is_high name) _ _ (λ h. cc) (λ h. cc)) (
        choice-ne-fault (is_high name || (ltb names i && leb name c.last)) _ _ (λ h. cc)
          (choice-ne-fault (ltb (score id language name) c.best) _ _ (λ h. cc) (λ h. cc)))

  scan_entries-ne-fault :
      (id : ℕ) (language : Bool) (names at i left : ℕ) (c : Choice)
      → at + (i + left) * 8 ≤ image_size im
      → scan_entries im id language names at i left c ≢ fault
  unfolding scan_entries
  scan_entries-ne-fault id language names at i zero c room = λ h. cc
  scan_entries-ne-fault id language names at i (suc left) c room =
      >>=-ne-fault (read_u32 im.bytes (at + i * 8)) _ (u32-ne-fault _ (omega arith)) λ name _.
        >>=-ne-fault (read_u32 im.bytes (at + i * 8 + 4)) _ (u32-ne-fault _ (omega arith))
          λ offset _.
            >>=-ne-fault (choose id language names i name offset c) _
              (choose-ne-fault id language names i name offset c)
              λ next _. scan_entries-ne-fault id language names at (i + 1) left next (omega arith)

  entry-ne-fault : (table id : ℕ) (language : Bool) → entry im table id language ≢ fault
  unfolding entry
  entry-ne-fault table id language =
      >>=-ne-fault (read_table im table) _ (read_table-ne-fault table) λ (names, count, at) found.
        let bound = read_table-inside table names count at found in
        >>=-ne-fault (scan_entries im id language names at 0 count no_choice) _
          (scan_entries-ne-fault id language names at 0 count no_choice (omega (arith, bound.1)))
          λ c _. choice-ne-fault (c.best == 2 ^ 32 - 1) _ _ (λ h. cc) (λ h. cc)

  same_text-ne-fault :
      (at : ℕ) (xs : Bytes) → at + length xs * 2 ≤ image_size im → same_text im at xs ≢ fault
  unfolding same_text
  same_text-ne-fault at [] room = λ h. cc
  same_text-ne-fault at (x ∷ xs) room =
      >>=-ne-fault (read_u16 im.bytes at) _ (u16-ne-fault at (omega arith)) λ u _.
        choice-ne-fault (ascii_upper u == ascii_upper x) _ _
          (same_text-ne-fault (at + 2) xs (omega arith)) (λ h. cc)

  compare-ne-fault :
      (at units : ℕ) (name : Bytes)
      → at + units * 2 ≤ image_size im
      → (if units == length name then same_text im at name else ok false) ≢ fault
  compare-ne-fault at units name room = elim (Bool-cases (units == length name)) [
    | inl same ↦ rw same (same_text-ne-fault at name (ground arith))
    | inr other ↦ rw other (λ h. cc)
  ]

  entry_matches-ne-fault : (key : ℕ) (name : Bytes) → entry_matches im key name ≢ fault
  unfolding entry_matches
  entry_matches-ne-fault key name =
      >>=-ne-fault (refuse (not (is_high key)) malformed) _ (refuse-ne-fault _ malformed) λ _ _.
        >>=-ne-fault (span im (low_bits key) 2) _ (span-ne-fault (low_bits key) 2) λ t found.
          >>=-ne-fault (read_u16 im.bytes t) _
            (u16-ne-fault t (span-inside (low_bits key) 2 t found))
            λ units _.
              >>=-ne-fault (span im (low_bits key + 2) (units * 2)) _
                (span-ne-fault (low_bits key + 2) (units * 2))
                λ text there.
                  compare-ne-fault text units name
                    (span-inside (low_bits key + 2) (units * 2) text there)

  scan_names-ne-fault :
      (name : Bytes) (at i left : ℕ)
      → at + (i + left) * 8 ≤ image_size im
      → scan_names im name at i left ≢ fault
  unfolding scan_names
  scan_names-ne-fault name at i zero room = λ h. cc
  scan_names-ne-fault name at i (suc left) room =
      >>=-ne-fault (read_u32 im.bytes (at + i * 8)) _ (u32-ne-fault _ (omega arith)) λ key _.
        >>=-ne-fault (read_u32 im.bytes (at + i * 8 + 4)) _ (u32-ne-fault _ (omega arith))
          λ value _.
            >>=-ne-fault (entry_matches im key name) _ (entry_matches-ne-fault key name) λ found _.
              choice-ne-fault found _ _ (λ h. cc)
                (scan_names-ne-fault name at (i + 1) left (omega arith))

  check_name-ne-fault : (wanted : ℕ) (name : Bytes) → check_name wanted name ≢ fault
  unfolding check_name
  check_name-ne-fault wanted [] = refuse-ne-fault _ limit
  check_name-ne-fault wanted (x ∷ xs) =
      choice-ne-fault (ltb 255 wanted) _ _ (λ h. cc)
        (choice-ne-fault (leb 0x80 x) _ _ (λ h. cc) (check_name-ne-fault (wanted + 1) xs))

  entry_name-ne-fault : (table : ℕ) (name : Bytes) → entry_name im table name ≢ fault
  unfolding entry_name
  entry_name-ne-fault table name =
      >>=-ne-fault (refuse (length name == 0) precondition) _ (refuse-ne-fault _ precondition)
        λ _ _. >>=-ne-fault (check_name 0 name) _ (check_name-ne-fault 0 name) λ _ _.
          >>=-ne-fault (read_table im table) _ (read_table-ne-fault table)
            λ (names, count, at) found.
              let bound = read_table-inside table names count at found in
              scan_names-ne-fault name at 0 names (omega (arith, bound.0, bound.1))

  resource_data-ne-fault : (target language : ℕ) → resource_data im target language ≢ fault
  unfolding resource_data
  resource_data-ne-fault target language =
      >>=-ne-fault (refuse (is_high target) unsupported) _ (refuse-ne-fault _ unsupported) λ _ _.
        >>=-ne-fault (span im target 16) _ (span-ne-fault target 16) λ p found.
          let bound = span-inside target 16 p found in
          >>=-ne-fault (read_u32 im.bytes p) _ (u32-ne-fault p (omega (arith, bound))) λ rva _.
            >>=-ne-fault (read_u32 im.bytes (p + 4)) _ (u32-ne-fault (p + 4) (omega (arith, bound)))
              λ size _.
                >>=-ne-fault (read_u32 im.bytes (p + 8)) _
                  (u32-ne-fault (p + 8) (omega (arith, bound)))
                  λ cp _.
                    >>=-ne-fault (read_u32 im.bytes (p + 12)) _
                      (u32-ne-fault (p + 12) (omega (arith, bound)))
                      λ reserved _.
                        >>=-ne-fault (refuse (not (reserved == 0)) malformed) _
                          (refuse-ne-fault _ malformed)
                          λ _ _.
                            >>=-ne-fault (file_offset im rva size) _
                              (file_offset-ne-fault im rva size) λ o _ h. cc

  pub resource_data-inside :
      (target language : ℕ) (r : Resource)
      → resource_data im target language ≡ ok r
      → (0 < r.size) × (r.offset + r.size ≤ image_size im)
  unfolding resource_data
  resource_data-inside target language r e =
      let (_, t₁, e₁) = >>=-eq-ok (refuse (is_high target) unsupported) _ e in
      let (p, found, e₂) = >>=-eq-ok (span im target 16) _ e₁ in
      let (rva, r₁, e₃) = >>=-eq-ok (read_u32 im.bytes p) _ e₂ in
      let (size, r₂, e₄) = >>=-eq-ok (read_u32 im.bytes (p + 4)) _ e₃ in
      let (cp, r₃, e₅) = >>=-eq-ok (read_u32 im.bytes (p + 8)) _ e₄ in
      let (reserved, r₄, e₆) = >>=-eq-ok (read_u32 im.bytes (p + 12)) _ e₅ in
      let (_, t₂, e₇) = >>=-eq-ok (refuse (not (reserved == 0)) malformed) _ e₆ in
      let (offset, there, e₈) = >>=-eq-ok (file_offset im rva size) _ e₇ in
      let bound = file_offset_sound im rva size offset there in
      rw (← same_resource e₈) (bound.0, bound.1)

  subtable-ne-fault : (target : ℕ) → subtable target ≢ fault
  subtable-ne-fault target = choice-ne-fault (is_high target) _ _ (λ h. cc) (λ h. cc)

  -- The lookup by numbers reads no byte outside of the file, whatever tree it holds.
  pub find-ne-fault : (type name lang : ℕ) → find im type name lang ≢ fault
  unfolding find
  find-ne-fault type name lang =
      >>=-ne-fault (refuse (is_high type || is_high name) precondition) _
        (refuse-ne-fault _ precondition)
        λ _ _.
          >>=-ne-fault (entry im 0 type false) _ (entry-ne-fault 0 type false) λ (target, key) _.
            >>=-ne-fault (subtable target) _ (subtable-ne-fault target) λ names _.
              >>=-ne-fault (refuse (names == 0) malformed) _ (refuse-ne-fault _ malformed) λ _ _.
                >>=-ne-fault (entry im names name false) _ (entry-ne-fault names name false)
                  λ (target₁, key₁) _.
                    >>=-ne-fault (subtable target₁) _ (subtable-ne-fault target₁) λ langs _.
                      >>=-ne-fault (refuse (langs == 0 || langs == names) malformed) _
                        (refuse-ne-fault _ malformed)
                        λ _ _.
                          >>=-ne-fault (entry im langs lang true) _ (entry-ne-fault langs lang true)
                            λ (target₂, key₂) _. resource_data-ne-fault target₂ key₂

  -- The lookup by a name reads no byte outside of the file either.
  pub find_name-ne-fault :
      (type : ℕ) (name : Bytes) (lang : ℕ) → find_name im type name lang ≢ fault
  unfolding find_name
  find_name-ne-fault type name lang =
      >>=-ne-fault (refuse (is_high type) precondition) _ (refuse-ne-fault _ precondition) λ _ _.
        >>=-ne-fault (entry im 0 type false) _ (entry-ne-fault 0 type false) λ (target, key) _.
          >>=-ne-fault (subtable target) _ (subtable-ne-fault target) λ names _.
            >>=-ne-fault (entry_name im names name) _ (entry_name-ne-fault names name) λ target₁ _.
              >>=-ne-fault (subtable target₁) _ (subtable-ne-fault target₁) λ langs _.
                >>=-ne-fault (entry im langs lang true) _ (entry-ne-fault langs lang true)
                  λ (target₂, key₂) _. resource_data-ne-fault target₂ key₂
