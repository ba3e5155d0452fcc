-- ===== src/Pe/Import/Safety.antt =====
-- The import reader reads in the file alone.
use ps5_homebrew_lab.Common.{
  ℕ, zero, suc, ◌+◌, ◌-◌, ◌*◌, ◌/◌, ◌%◌, ◌^◌, ◌≡◌, ◌≢◌, ◌⊎◌, ◌||◌, Bool, true, false, Option, none,
  some, arith, leb, ltb, ◌==◌, Outcome, ok, fault, overflow, limit, malformed, refuse,
  if◌then◌else◌, >>=-ne-fault,
}
use ps5_homebrew_lab.Pe.Bytes.{read_u16, read_u16_ok, read_u32_ok, read_u64_ok}
use ps5_homebrew_lab.Pe.Image.{Directory, Image, directory, file_offset, read_name}
use ps5_homebrew_lab.Pe.Image.Lookup.{file_offset_sound, file_offset-ne-fault}
use ps5_homebrew_lab.Pe.Image.Names.{read_name-ne-fault}
use ps5_homebrew_lab.Pe.Import.{
  Module, Descriptor, is_last, thunk_bytes, read_thunk, thunk_is_ordinal, count_from, count_thunks,
  max_symbols, max_modules, read_descriptor, parse_module, parse_from, parse_directory, parse,
  read_symbol, enumerate_from, enumerate, module_name_bytes, symbol_name_bytes, source_rva,
}

-- A decision between two parts that stay in bounds.
pub choice-ne-fault {ℓ} :
    {A : Type ℓ} (b : Bool) (x y : Outcome A) → x ≢ fault → y ≢ fault → (if b then x else y) ≢ fault
choice-ne-fault true x y h k = h
choice-ne-fault false x y h k = k

pub refuse-ne-fault : (b : Bool) (e : _) → refuse b e ≢ fault
refuse-ne-fault true e = λ h. cc
refuse-ne-fault false e = λ h. cc

abbrev pub IsWidth : ℕ → Type 0
IsWidth width = (width ≡ 4) ⊎ (width ≡ 8)

pub thunk_bytes-IsWidth : (im : Image) (width : ℕ) → thunk_bytes im ≡ ok width → IsWidth width
unfolding thunk_bytes
thunk_bytes-IsWidth im width e = ground arith

module _ (im : Image) where
  read_thunk-ne-fault : (rva width : ℕ) → IsWidth width → read_thunk im rva width ≢ fault
  unfolding read_thunk
  read_thunk-ne-fault rva width w =
      >>=-ne-fault (file_offset im rva width) _ (file_offset-ne-fault im rva width) λ o found.
        let bound = (file_offset_sound im rva width o found).1 in
        ground (arith, read_u32_ok im.bytes o, read_u64_ok im.bytes o)

  count_from-ne-fault :
      (table width index left named ordinal : ℕ)
      → IsWidth width
      → count_from im table width index left named ordinal ≢ fault
  unfolding count_from
  count_from-ne-fault table width index zero named ordinal w = λ h. cc
  count_from-ne-fault table width index (suc left) named ordinal w =
      >>=-ne-fault (refuse (ltb (0xffff_ffff - index * width) table) overflow) _
        (refuse-ne-fault _ overflow)
        λ _ _.
          >>=-ne-fault (read_thunk im (table + index * width) width) _
            (read_thunk-ne-fault (table + index * width) width w)
            λ value _.
              choice-ne-fault (value == 0) _ _ (λ h. cc)
                (count_from-ne-fault table width (index + 1) left _ _ w)

  read_descriptor-ne-fault : (table index : ℕ) → read_descriptor im table index ≢ fault
  unfolding read_descriptor
  read_descriptor-ne-fault table index =
      >>=-ne-fault (refuse (ltb (0xffff_ffff / 20) index) overflow) _ (refuse-ne-fault _ overflow)
        λ _ _.
          >>=-ne-fault (file_offset im ((table + index * 20) % 2 ^ 32) 20) _
            (file_offset-ne-fault im ((table + index * 20) % 2 ^ 32) 20)
            λ o found.
              let bound = (file_offset_sound im ((table + index * 20) % 2 ^ 32) 20 o found).1 in
              ground (
                arith,
                read_u32_ok im.bytes o,
                read_u32_ok im.bytes (o + 4),
                read_u32_ok im.bytes (o + 8),
                read_u32_ok im.bytes (o + 12),
                read_u32_ok im.bytes (o + 16),
              )

  parse_module-ne-fault :
      (width : ℕ) (d : Descriptor) → IsWidth width → parse_module im width d ≢ fault
  unfolding parse_module count_thunks
  parse_module-ne-fault width d w =
      >>=-ne-fault (read_name im d.name_rva module_name_bytes) _
        (read_name-ne-fault im d.name_rva module_name_bytes)
        λ name _.
          >>=-ne-fault (count_from im (source_rva d.lookup d.address) width 0 max_symbols 0 0) _
            (count_from-ne-fault (source_rva d.lookup d.address) width 0 max_symbols 0 0 w)
            λ c _. λ h. cc

  parse_from-ne-fault :
      (table width index left symbols : ℕ)
      → IsWidth width
      → parse_from im table width index left symbols ≢ fault
  unfolding parse_from
  parse_from-ne-fault table width index zero symbols w =
      >>=-ne-fault (read_descriptor im table index) _ (read_descriptor-ne-fault table index) λ d _.
        choice-ne-fault (is_last d) _ _ (λ h. cc)
          (>>=-ne-fault (refuse (d.name_rva == 0 || d.address == 0) malformed) _
            (refuse-ne-fault _ malformed) λ _ _ h. cc)
  parse_from-ne-fault table width index (suc left) symbols w =
      >>=-ne-fault (read_descriptor im table index) _ (read_descriptor-ne-fault table index) λ d _.
        choice-ne-fault (is_last d) _ _ (λ h. cc)
          (>>=-ne-fault (refuse (d.name_rva == 0 || d.address == 0) malformed) _
            (refuse-ne-fault _ malformed)
            λ _ _. >>=-ne-fault (parse_module im width d) _ (parse_module-ne-fault width d w) λ m _.
              >>=-ne-fault
                (parse_from im table width (index + 1) left
                  ((symbols + (m.named_count + m.ordinal_count)) % 2 ^ 32))
                _
                (parse_from-ne-fault table width (index + 1) left
                  ((symbols + (m.named_count + m.ordinal_count)) % 2 ^ 32) w)
                λ t _ h. cc)

  parse_directory-ne-fault : (d : Option Directory) → parse_directory im d ≢ fault
  unfolding parse_directory thunk_bytes
  parse_directory-ne-fault none = λ h. cc
  parse_directory-ne-fault (some d) =
      choice-ne-fault (d.virtual_address == 0 || d.size == 0) _ _ (λ h. cc)
        (>>=-ne-fault (thunk_bytes im) _ (ground arith) λ width e.
          parse_from-ne-fault d.virtual_address width 0 max_modules 0
            (thunk_bytes-IsWidth im width e))

  -- pe_import_parse reads in the file alone, whatever the descriptors, names and thunks hold.
  pub import-ne-fault : parse im ≢ fault
  unfolding parse
  import-ne-fault = parse_directory-ne-fault (directory im 1)

  read_symbol-ne-fault : (width thunk value : ℕ) → read_symbol im width thunk value ≢ fault
  unfolding read_symbol
  read_symbol-ne-fault width thunk value =
      choice-ne-fault (thunk_is_ordinal width value) _ _ (λ h. cc)
        (>>=-ne-fault (file_offset im (value % 2 ^ 32) 2) _
          (file_offset-ne-fault im (value % 2 ^ 32) 2)
          λ o found.
            >>=-ne-fault (read_u16 im.bytes o) _
              (let bound = (file_offset_sound im (value % 2 ^ 32) 2 o found).1 in
                ground (arith, read_u16_ok im.bytes o))
              λ hint _.
                >>=-ne-fault (read_name im ((value % 2 ^ 32 + 2) % 2 ^ 32) symbol_name_bytes) _
                  (read_name-ne-fault im ((value % 2 ^ 32 + 2) % 2 ^ 32) symbol_name_bytes)
                  λ name _ h. cc)

  enumerate_from-ne-fault :
      (source address width capacity index left : ℕ)
      → IsWidth width
      → enumerate_from im source address width capacity index left ≢ fault
  unfolding enumerate_from
  enumerate_from-ne-fault source address width capacity index zero w = λ h. cc
  enumerate_from-ne-fault source address width capacity index (suc left) w =
      >>=-ne-fault
        (refuse
          (ltb (0xffff_ffff - index * width) source || ltb (0xffff_ffff - index * width) address)
          overflow)
        _ (refuse-ne-fault _ overflow)
        λ _ _.
          >>=-ne-fault (read_thunk im (source + index * width) width) _
            (read_thunk-ne-fault (source + index * width) width w)
            λ value _.
              choice-ne-fault (value == 0) _ _ (λ h. cc)
                (>>=-ne-fault (refuse (leb capacity index) limit) _ (refuse-ne-fault _ limit) λ _ _.
                  >>=-ne-fault (read_symbol im width (address + index * width) value) _
                    (read_symbol-ne-fault width (address + index * width) value)
                    λ s _.
                      >>=-ne-fault
                        (enumerate_from im source address width capacity (index + 1) left) _
                        (enumerate_from-ne-fault source address width capacity (index + 1) left w)
                        λ ss _ h. cc)

  -- pe_import_enumerate reads in the file alone, whatever module it is given.
  pub enumerate-ne-fault : (m : Module) (capacity : ℕ) → enumerate im m capacity ≢ fault
  unfolding enumerate thunk_bytes
  enumerate-ne-fault m capacity = >>=-ne-fault (thunk_bytes im) _ (ground arith) λ width e.
      >>=-ne-fault (refuse (source_rva m.lookup_table_rva m.address_table_rva == 0) malformed) _
        (refuse-ne-fault _ malformed)
        λ _ _.
          enumerate_from-ne-fault (source_rva m.lookup_table_rva m.address_table_rva)
            m.address_table_rva width capacity 0 max_symbols (thunk_bytes-IsWidth im width e)
