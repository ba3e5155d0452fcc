-- ===== src/Map/Verify/Laws.antt =====
-- The mapper and its verification agree: what fill leaves passes every test of pw_map_verify.
use ps5_homebrew_lab.Common.{
  ℕ, zero, suc, ◌+◌, ◌-◌, ◌%◌, ◌^◌, ◌*◌, bit_xor, ◌≤◌, ◌<◌, ◌≡◌, inl, inr, Bool, true, false, not,
  ◌&&◌, List, [], ◌∷◌, length, ◌==◌, if◌then◌else◌, Outcome, ok, arith, refl, Bool-cases,
}
use native.Mathlib.Nat.{mod-eq_of_lt}
use ps5_homebrew_lab.Pe.Bytes.{Bytes, byte, read_u8}
use ps5_homebrew_lab.Pe.Image.{Image}
use ps5_homebrew_lab.Pe.Layout.{LayoutSection, has, prot_exec}
use ps5_homebrew_lab.Pe.Layout.Plan.{Arranged}
use ps5_homebrew_lab.Map.{Mapped}
use ps5_homebrew_lab.Map.Contents.{section_byte, section_byte-before}
use ps5_homebrew_lab.Map.Verify.{
  Report, checksum_from, all_zero, same_bytes, compare_bytes, violations, reads, verify_section,
  verify_sections,
}

pub checksum_from_total :
    (bytes : Bytes) (at count hash : ℕ)
    → at + count ≤ length bytes
    → (sum : ℕ) × (checksum_from bytes at count hash ≡ ok sum)
unfolding checksum_from read_u8
checksum_from_total bytes at zero hash room = (hash, refl)
checksum_from_total bytes at (suc count) hash room =
    let (sum, e) =
      checksum_from_total bytes (at + 1) count
        (bit_xor hash (byte bytes at) * 1099511628211 % 2 ^ 64) (omega arith) in
    (sum, ground arith)

all_zero-zeros :
    (bytes : Bytes) (at count : ℕ)
    → at + count ≤ length bytes
    → ((j : ℕ) → at ≤ j → j < at + count → byte bytes j ≡ 0)
    → all_zero bytes at count ≡ ok true
unfolding all_zero read_u8
all_zero-zeros bytes at zero room zeros = refl
all_zero-zeros bytes at (suc count) room zeros =
    let rest =
      all_zero-zeros bytes (at + 1) count (omega arith)
        (λ j after before. zeros j (omega arith) (omega arith)) in
    ground (arith, rest, zeros at (omega arith) (omega arith))

shifted :
    (a : Bytes) (at : ℕ) (b : Bytes) (from k : ℕ)
    → byte a (at + suc k) ≡ byte b (from + suc k)
    → byte a (at + 1 + k) ≡ byte b (from + 1 + k)
shifted a at b from k e =
    let there : at + 1 + k ≡ at + suc k = omega arith in
    let here : from + 1 + k ≡ from + suc k = omega arith in rw (there, here) e

shifted_zero :
    (a : Bytes) (at : ℕ) (b : Bytes) (from : ℕ)
    → byte a (at + 0) ≡ byte b (from + 0)
    → byte a at ≡ byte b from
shifted_zero a at b from e =
    let there : at + 0 ≡ at = omega arith in
    let here : from + 0 ≡ from = omega arith in rw (there, here) at e

same_bytes_lem :
    (a : Bytes) (at : ℕ) (b : Bytes) (from count : ℕ)
    → ((k : ℕ) → k < count → byte a (at + k) ≡ byte b (from + k))
    → same_bytes a at b from count ≡ true
unfolding same_bytes
same_bytes_lem a at b from zero same = refl
same_bytes_lem a at b from (suc count) same =
    let rest =
      same_bytes_lem a (at + 1) b (from + 1) count
        (λ k below. shifted a at b from k (same (suc k) (omega arith))) in
    let first = shifted_zero a at b from (same zero (omega arith)) in ground (arith, rest, first)

pub reads_total :
    (bytes : Bytes) (at : ℕ) (xs : List ℕ)
    → at + length xs ≤ length bytes
    → at + length xs < 2 ^ 32
    → (found : Bool) × (reads bytes at xs ≡ ok found)
unfolding reads read_u8
reads_total bytes at [] room word = (true, refl)
reads_total bytes at (x ∷ xs) room word =
    let step : (at + 1) % 2 ^ 32 ≡ at + 1 = mod-eq_of_lt (omega arith) in
    let (found, e) = reads_total bytes (at + 1) xs (omega arith) (omega arith) in
    elim (Bool-cases (byte bytes at == x)) [
      | inl same ↦ (found, ground (arith, step, e))
      | inr other ↦ (false, ground arith)
    ]

-- What the memory holds from the start of a list of sections on.
abbrev pub Holds : Bytes → Bytes → ℕ → ℕ → List LayoutSection → Type 0
Holds out file ib prev ps = (j : ℕ) → prev ≤ j → j < ib → byte out j ≡ section_byte file ps j 0

-- A report without violations, after a number of sections.
pub record IsClean (count : ℕ) (r : Report) : Type 0 where
  pub checked : r.sections_checked ≡ count
  pub raw : r.raw_mismatches ≡ 0
  pub tails : r.zero_tail_violations ≡ 0
  pub aliases : r.alias_mismatches ≡ 0

clean_count : (n count : ℕ) → n ≡ count → count + 1 < 2 ^ 32 → (n + 1) % 2 ^ 32 ≡ count + 1
clean_count n count e few = rw e (mod-eq_of_lt few)

same_count : (count : ℕ) → count + 0 ≡ count
same_count count = omega arith

violations_clean :
    (test : Bool) (holds : Outcome Bool)
    → (test ≡ true → holds ≡ ok true)
    → violations test holds ≡ ok 0
violations_clean false holds h = refl
violations_clean true holds h = rw (h refl) refl

compare_bytes_lem :
    (a : Bytes) (at : ℕ) (b : Bytes) (from count : ℕ)
    → at + count ≤ length a
    → from + count ≤ length b
    → ((k : ℕ) → k < count → byte a (at + k) ≡ byte b (from + k))
    → compare_bytes a at b from count ≡ ok true
unfolding compare_bytes
compare_bytes_lem a at b from count h k same = ground (arith, same_bytes_lem a at b from count same)

abbrev clean_step : Mapped → Report → LayoutSection → Report
clean_step m r p = record {
  sections_checked = (r.sections_checked + 1) % 2 ^ 32;
  bytes_compared =
      (r.bytes_compared
        + (if m.relocs.applied == 0 && not (p.raw_bytes == 0) then p.raw_bytes else 0))
      % 2 ^ 64;
  raw_mismatches = (r.raw_mismatches + 0) % 2 ^ 32;
  zero_tail_violations = (r.zero_tail_violations + 0) % 2 ^ 32;
  alias_mismatches = (r.alias_mismatches + 0) % 2 ^ 32;
  checksum = r.checksum;
  headers_present = r.headers_present;
}

-- The bytes of the first section of the list, and those behind it.
module _ (out file : Bytes) (a ib prev : ℕ) (p : LayoutSection) (ps : List LayoutSection) (end : ℕ)
    (t : Arranged (length file) a ib prev (p ∷ ps) end)
    (holds : Holds out file ib prev (p ∷ ps)) where
  raw_part : (k : ℕ) → k < p.raw_bytes → byte out (p.rva + k) ≡ byte file (p.raw_offset + k)
  unfolding section_byte
  raw_part k below =
      let here =
        holds (p.rva + k) (omega (arith, t.0.behind)) (omega (arith, t.0.inside, t.0.filled)) in
      let there : p.rva + k - p.rva ≡ k = omega arith in ground (arith, rw there at here)

  zero_part :
      (j : ℕ) → p.rva + p.raw_bytes ≤ j → j < p.rva + p.raw_bytes + p.zero_bytes → byte out j ≡ 0
  unfolding section_byte
  zero_part j after before =
      let here = holds j (omega (arith, t.0.behind)) (omega (arith, t.0.inside, t.0.filled)) in
      let rest =
        section_byte-before file (length file) a ib (p.rva + p.mapped_bytes) ps end j 0 t.1
          (omega (arith, t.0.filled)) in
      ground (arith, here, rest)

  behind_part : Holds out file ib (p.rva + p.mapped_bytes) ps
  unfolding section_byte
  behind_part j after inside =
      let here = holds j (omega (arith, t.0.behind)) inside in
      ground (arith, here, t.0.covers, t.0.raw_covered)

module _ (m : Mapped) (im : Image) where
  verify_section-IsClean :
      (a ib prev : ℕ) (p : LayoutSection) (ps : List LayoutSection) (end : ℕ) (r : Report)
      (count : ℕ)
      → Arranged (length im.bytes) a ib prev (p ∷ ps) end
      → ib ≤ length m.memory
      → ib < 2 ^ 32
      → count + 1 < 2 ^ 32
      → Holds m.memory im.bytes ib prev (p ∷ ps)
      → IsClean count r
      → (next : Report) × (verify_section m m.memory im r p ≡ ok next) × IsClean (count + 1) next
  unfolding verify_section
  verify_section-IsClean a ib prev p ps end r count t room word few holds clean =
      let out = m.memory in
      let file = im.bytes in
      let raw =
        violations_clean (m.relocs.applied == 0 && not (p.raw_bytes == 0))
          (compare_bytes out p.rva file p.raw_offset p.raw_bytes)
          (λ test.
            compare_bytes_lem out p.rva file p.raw_offset p.raw_bytes
              (omega (arith, t.0.inside, t.0.filled)) (ground (arith, t.0.in_file))
              (raw_part out file a ib prev p ps end t holds)) in
      let place : (p.rva + p.raw_bytes) % 2 ^ 32 ≡ p.rva + p.raw_bytes =
        mod-eq_of_lt (omega (arith, t.0.inside, t.0.filled)) in
      let tail =
        violations_clean (not (p.zero_bytes == 0)) (all_zero out (p.rva + p.raw_bytes) p.zero_bytes)
          (λ test.
            all_zero-zeros out (p.rva + p.raw_bytes) p.zero_bytes
              (omega (arith, t.0.inside, t.0.filled))
              (zero_part out file a ib prev p ps end t holds)) in
      let alias =
        violations_clean (m.aliased_exec && has p.protection prot_exec)
          (compare_bytes out p.rva out p.rva p.mapped_bytes)
          (λ test.
            compare_bytes_lem out p.rva out p.rva p.mapped_bytes (omega (arith, t.0.inside))
              (omega (arith, t.0.inside)) (λ k below. refl)) in
      (
        clean_step m r p,
        rw (raw, place, tail, alias) refl,
        record {
          checked = clean_count r.sections_checked count clean.checked few;
          raw = rw clean.raw refl;
          tails = rw clean.tails refl;
          aliases = rw clean.aliases refl;
        },
      )

  pub verify_sections-IsClean :
      (a ib prev : ℕ) (ps : List LayoutSection) (end : ℕ) (r : Report) (count : ℕ)
      → Arranged (length im.bytes) a ib prev ps end
      → ib ≤ length m.memory
      → ib < 2 ^ 32
      → count + length ps < 2 ^ 32
      → Holds m.memory im.bytes ib prev ps
      → IsClean count r
      → (next : Report) × (verify_sections m m.memory im r ps ≡ ok next)
        × IsClean (count + length ps) next
  unfolding verify_sections
  verify_sections-IsClean a ib prev [] end r count t room word few holds clean =
      (r, refl, rw (same_count count) clean)
  verify_sections-IsClean a ib prev (p ∷ ps) end r count t room word few holds clean =
      let (next, e, step) =
        verify_section-IsClean a ib prev p ps end r count t room word (omega arith) holds clean in
      let (last, f, done) =
        verify_sections-IsClean a ib (p.rva + p.mapped_bytes) ps end next (count + 1) t.1 room word
          (omega arith) (behind_part m.memory im.bytes a ib prev p ps end t holds) step in
      let sum : count + suc (length ps) ≡ count + 1 + length ps = omega arith in
      (last, rw e f, rw sum done)
