-- ===== src/Map/Verify/Fill.antt =====
-- pw_map_verify behind the filling of pw_map_image.
use ps5_homebrew_lab.Common.{
  ◌+◌, ◌%◌, ◌^◌, ◌≤◌, ◌<◌, ◌≡◌, inl, inr, Bool, false, not, ◌||◌, ◌∷◌, [], length, ltb, leb, ◌==◌,
  if◌then◌else◌, ok, arith, refl, ◌≢◌, Bool-cases,
}
use native.Mathlib.Nat.{mod-eq_of_lt}
use ps5_homebrew_lab.Pe.Bytes.{Bytes}
use ps5_homebrew_lab.Pe.Image.{Image}
use ps5_homebrew_lab.Pe.Image.Shape.{IsWellFormed}
use ps5_homebrew_lab.Pe.Layout.{Layout, plan}
use ps5_homebrew_lab.Pe.Layout.Laws.{plan-IsLaidOut}
use ps5_homebrew_lab.Map.{Mapped, fill}
use ps5_homebrew_lab.Map.Contents.{expected, fill-expected}
use ps5_homebrew_lab.Map.Verify.{Report, no_report, checksum_bytes, headers_present, verify}
use ps5_homebrew_lab.Map.Verify.Laws.{
  IsClean, Holds, reads_total, checksum_from_total, verify_sections-IsClean,
}

headers_present_total :
    (m : Mapped) (im : Image)
    → m.image_bytes ≤ length m.memory
    → m.image_bytes < 2 ^ 32
    → im.nt_offset + 4 < 2 ^ 32
    → (found : Bool) × (headers_present m im ≡ ok found)
unfolding headers_present
headers_present_total m im room word low = elim (Bool-cases (leb 64 m.image_bytes)) [
  | inr small ↦ (false, rw small refl)
  | inl wide ↦
      let (mz, e) = reads_total m.memory 0 (0x4d ∷ 0x5a ∷ []) (ground arith) (omega arith) in
      elim (Bool-cases (not mz || not (leb ((im.nt_offset + 4) % 2 ^ 32) m.image_bytes))) [
        | inl bad ↦ (false, rw (wide, e, bad) refl)
        | inr good ↦
            let place : (im.nt_offset + 4) % 2 ^ 32 ≡ im.nt_offset + 4 = mod-eq_of_lt low in
            let (nt, f) =
              reads_total m.memory im.nt_offset (0x50 ∷ 0x45 ∷ 0 ∷ 0 ∷ []) (ground arith)
                (omega arith) in
            (nt, rw (wide, e, good) f)
      ]
]

-- A mapping of a well-formed image, with its layout and the memory that fill leaves, that is not protected
-- yet and whose executable view shows that memory, passes the verification: the call succeeds, it has checked every
-- section, and no section has a byte that differs from the file, from zero in its tail, or between the views.
pub verify-fill :
    (im : Image) (l : Layout) (start : Bytes) (m : Mapped)
    → IsWellFormed im
    → plan im ≡ ok l
    → l.image_bytes ≤ length start
    → fill start im.bytes l ≡ ok m.memory
    → m.image_bytes ≡ l.image_bytes
    → m.region.write_base ≢ 0
    → m.protections_applied ≡ false
    → (r : Report) × (verify m m.memory im l ≡ ok r) × IsClean im.section_count r
unfolding verify expected checksum_bytes
verify-fill im l start m w e room filled sized standing fresh =
    let d = plan-IsLaidOut im l w e in
    let (out, done, kept, bytes) = fill-expected im l start w e room in
    let same : out ≡ m.memory = cc in
    let wide : l.image_bytes ≤ length m.memory = rw (← same) (omega (arith, kept)) in
    let holds : Holds m.memory im.bytes l.image_bytes d.header_end l.sections =
      rw (← same) (λ j after inside.
        let behind : ltb j l.header_bytes ≡ false = ground (arith, d.headers_before) in
        rw behind at (bytes j inside)) in
    let (headers, h) =
      headers_present_total m im (omega (arith, wide, sized)) (omega (arith, sized, d.word))
        (omega (arith, w.table_in_headers, w.header_fits.headers_word)) in
    let first = record no_report { headers_present = if headers then 1 else 0 } in
    let (r, checked, clean) =
      verify_sections-IsClean m im im.section_alignment l.image_bytes d.header_end l.sections d.end
        first 0 d.arranged wide d.word (omega (arith, d.all_sections, w.few_sections)) holds
        (record { checked = refl; raw = refl; tails = refl; aliases = refl }) in
    let (sum, summed) =
      checksum_from_total m.memory 0 m.image_bytes 1469598103934665603
        (omega (arith, wide, sized)) in
    let allowed : (m.region.write_base == 0 || m.protections_applied) ≡ false = ground arith in
    (
      record r { checksum = sum },
      rw (allowed, h, checked, summed) refl,
      record {
        checked = omega (arith, clean.checked, d.all_sections);
        raw = clean.raw;
        tails = clean.tails;
        aliases = clean.aliases;
      },
    )
