-- ===== src/Pe/Image/Names.antt =====
-- pe_image_read_name.
use ps5_homebrew_lab.Common.{
  ℕ, zero, suc, ◌+◌, ◌≤◌, ◌<◌, ◌≡◌, ◌≢◌, ◌↔◌, [], ◌∷◌, length, arith, ◌==◌, ok, fault, refuse,
  >>=-ne-fault, precondition,
}
use ps5_homebrew_lab.Pe.Bytes.{Bytes, byte, read_u8_ok}
use ps5_homebrew_lab.Pe.Image.{
  Image, or_not_found, name_in, name_in_headers, name_span, scan_name, read_name, image_size,
}
use ps5_homebrew_lab.Pe.Image.Safety.{scan_name-ne-fault}

-- The bytes at `o` are the printable characters of the name and then a NUL.
abbrev pub NameAt : Bytes → ℕ → Bytes → Type 0
NameAt b o [] = byte b o ≡ 0
NameAt b o (x ∷ xs) = (byte b o ≡ x) × (0x20 ≤ x) × (x ≤ 0x7e) × NameAt b (o + 1) xs

scan_name_sound :
    (b : Bytes) (o n : ℕ) (name : Bytes)
    → o + n ≤ length b
    → scan_name b o n ≡ ok name
    → NameAt b o name × (length name < n)
unfolding scan_name
scan_name_sound b o zero name h e = cc
scan_name_sound b o (suc n) [] h e = ground (arith, read_u8_ok b o)
scan_name_sound b o (suc n) (x ∷ xs) h e =
    ground (arith, read_u8_ok b o, scan_name_sound b (o + 1) n xs)

scan_name_complete :
    (b : Bytes) (o n : ℕ) (name : Bytes)
    → o + n ≤ length b
    → NameAt b o name
    → length name < n
    → scan_name b o n ≡ ok name
unfolding scan_name
scan_name_complete b o zero name h at l = absurd (omega arith)
scan_name_complete b o (suc n) [] h at l = ground (arith, read_u8_ok b o)
scan_name_complete b o (suc n) (x ∷ xs) h at l =
    ground (arith, read_u8_ok b o, scan_name_complete b (o + 1) n xs)

-- The span that is searched lies in the file.
pub name_span_bounds :
    (im : Image) (rva o n : ℕ) → name_span im rva ≡ ok (o, n) → o + n ≤ image_size im
unfolding name_span name_in name_in_headers or_not_found
name_span_bounds im rva o n e = ground arith

-- pe_image_read_name returns a name exactly when that name, not empty and printable, stands at the
-- address, ends by a NUL in the span that is searched, and fits the buffer with its NUL.
pub read_name_iff :
    (im : Image) (rva out_bytes o n : ℕ) (name : Bytes)
    → name_span im rva ≡ ok (o, n)
    → (read_name im rva out_bytes ≡ ok name)
      ↔ (NameAt im.bytes o name × (length name < n) × (0 < length name) × (length name < out_bytes))
unfolding read_name
read_name_iff im rva out_bytes o n name e = (
  λ h. ground (arith, name_span_bounds im rva o n e, scan_name_sound im.bytes o n name),
  λ h. ground (arith, name_span_bounds im rva o n e, scan_name_complete im.bytes o n name),
)

name_span-ne-fault : (im : Image) (rva : ℕ) → name_span im rva ≢ fault
unfolding name_span name_in name_in_headers or_not_found
name_span-ne-fault im rva = ground arith

-- The search for the NUL stays in the file.
pub read_name-ne-fault : (im : Image) (rva out_bytes : ℕ) → read_name im rva out_bytes ≢ fault
unfolding read_name
read_name-ne-fault im rva out_bytes =
    >>=-ne-fault (refuse (out_bytes == 0) precondition) _ (ground arith) λ _ _.
      >>=-ne-fault (name_span im rva) _ (name_span-ne-fault im rva) λ p found.
        >>=-ne-fault (scan_name im.bytes p.0 p.1) _
          (scan_name-ne-fault im.bytes p.0 p.1 (name_span_bounds im rva p.0 p.1 found))
          λ name _. ground arith
