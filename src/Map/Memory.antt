-- ===== src/Map/Memory.antt =====
-- memset and memcpy between spans that do not overlap, with the bytes that they leave.
use ps5_homebrew_lab.Common.{
  ℕ, zero, suc, ◌+◌, ◌-◌, ◌%◌, ◌≤◌, ◌<◌, ◌≡◌, ◌&&◌, [], ◌∷◌, length, set, ltb, leb, if◌then◌else◌,
  Outcome, ok, fault, arith, refl, ap, ◌∙◌, length-set, ◌⊎◌, inl, inr, below_or,
}
use ps5_homebrew_lab.Pe.Bytes.{Bytes, byte}
use ps5_homebrew_lab.Pe.Reloc.Store.{get_or-set_self, get_or-set}

-- The first n bytes become 0.
pub blank : Bytes → ℕ → Bytes
blank m zero = m
blank [] (suc n) = []
blank (x ∷ m) (suc n) = 0 ∷ blank m n

-- n bytes are written at a place, from a place of the source on.
pub blit : Bytes → ℕ → Bytes → ℕ → ℕ → Bytes
blit m at source from zero = m
blit m at source from (suc n) = blit (set m at (byte source from)) (at + 1) source (from + 1) n

pub clear : Bytes → ℕ → Outcome Bytes
clear m n = if leb n (length m) then ok (blank m n) else fault

pub copy : Bytes → ℕ → Bytes → ℕ → ℕ → Outcome Bytes
copy m at source from n =
    if leb (at + n) (length m) && leb (from + n) (length source)
    then ok (blit m at source from n)
    else fault

pub length-blank : (m : Bytes) (n : ℕ) → length (blank m n) ≡ length m
unfolding blank
length-blank m zero = refl
length-blank [] (suc n) = refl
length-blank (x ∷ m) (suc n) = ap suc (length-blank m n)

pub byte-blank : (m : Bytes) (n j : ℕ) → byte (blank m n) j ≡ (if ltb j n then 0 else byte m j)
unfolding blank
byte-blank m zero j = ground arith
byte-blank [] (suc n) j = ground arith
byte-blank (x ∷ m) (suc n) zero = ground arith
byte-blank (x ∷ m) (suc n) (suc j) = ground (arith, byte-blank m n j)

pub length-blit :
    (m : Bytes) (at : ℕ) (source : Bytes) (from n : ℕ) → length (blit m at source from n) ≡ length m
unfolding blit
length-blit m at source from zero = refl
length-blit m at source from (suc n) =
    length-blit (set m at (byte source from)) (at + 1) source (from + 1) n
    ∙ length-set m at (byte source from)

pub byte-blit_outside :
    (m : Bytes) (at : ℕ) (source : Bytes) (from n j : ℕ)
    → at + n ≤ length m
    → (j < at) ⊎ (at + n ≤ j)
    → byte (blit m at source from n) j ≡ byte m j
unfolding blit
byte-blit_outside m at source from zero j h out = refl
byte-blit_outside m at source from (suc n) j h out =
    byte-blit_outside (set m at (byte source from)) (at + 1) source (from + 1) n j
      (omega (arith, length-set m at (byte source from))) (ground arith)
    ∙ ap (λ (t : ℕ). t % 256) (get_or-set m at j (byte source from) (omega arith) (omega arith))

pub byte-blit :
    (m : Bytes) (at : ℕ) (source : Bytes) (from n k : ℕ)
    → at + n ≤ length m
    → k < n
    → byte (blit m at source from n) (at + k) ≡ byte source (from + k)
unfolding blit
byte-blit m at source from zero k h fits = elim fits [ ]
byte-blit m at source from (suc n) zero h fits =
    let next = set m at (byte source from) in
    let first =
      byte-blit_outside next (at + 1) source (from + 1) n at
        (omega (arith, length-set m at (byte source from))) (inl (omega arith)) in
    let written = get_or-set_self m at (byte source from) (omega arith) in
    let there : at + 0 ≡ at = omega arith in
    let here : from + 0 ≡ from = omega arith in rw (there, here) (first ∙ omega (arith, written))
byte-blit m at source from (suc n) (suc k) h fits =
    let next = set m at (byte source from) in
    let rest =
      byte-blit next (at + 1) source (from + 1) n k
        (omega (arith, length-set m at (byte source from))) (omega arith) in
    let there : at + suc k ≡ at + 1 + k = omega arith in
    let here : from + suc k ≡ from + 1 + k = omega arith in rw (there, here) rest

pub clear_lem : (m : Bytes) (n : ℕ) → n ≤ length m → clear m n ≡ ok (blank m n)
unfolding clear
clear_lem m n h = ground arith

pub copy_lem :
    (m : Bytes) (at : ℕ) (source : Bytes) (from n : ℕ)
    → at + n ≤ length m
    → from + n ≤ length source
    → copy m at source from n ≡ ok (blit m at source from n)
unfolding copy
copy_lem m at source from n h k = ground arith

pub byte-blit_window :
    (m : Bytes) (at : ℕ) (source : Bytes) (from n j : ℕ)
    → at + n ≤ length m
    → byte (blit m at source from n) j
      ≡ (if leb at j && ltb j (at + n) then byte source (from + (j - at)) else byte m j)
byte-blit_window m at source from n j room = elim (below_or j at) [
  | inl before ↦ ground (arith, byte-blit_outside m at source from n j room (inl before))
  | inr after ↦ elim (below_or j (at + n)) [
    | inl inside ↦
        let there : at + (j - at) ≡ j = omega arith in
        let written = byte-blit m at source from n (j - at) room (omega arith) in
        ground (arith, rw there at written)
    | inr behind ↦ ground (arith, byte-blit_outside m at source from n j room (inr behind))
  ]
]
