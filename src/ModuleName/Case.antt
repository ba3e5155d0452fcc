-- ===== src/ModuleName/Case.antt =====
-- The case of a name does not matter.
use ps5_homebrew_lab.Common.{
  ℕ, suc, ◌+◌, ◌≡◌, ◌≤◌, ◌↔◌, ◌≢◌, ◌⊎◌, inl, inr, Bool-cases, length-append, Bool, true, false,
  ◌&&◌, Option, none, some, [], ◌∷◌, ◌++◌, map, length, ltb, ◌==◌, ok, arith, refl, sym, ap, ◌∙◌,
}
use ps5_homebrew_lab.Pe.Bytes.{Bytes}
use ps5_homebrew_lab.ModuleName.{
  ascii_lower, bad_byte, name_max, check_bytes, or_first_dot, last_dot, has_extension, dll,
  canonical, equal,
}

abbrev lower : Bytes → Bytes
lower name = map ascii_lower name

ascii_lower_twice : (x : ℕ) → ascii_lower (ascii_lower x) ≡ ascii_lower x
unfolding ascii_lower
ascii_lower_twice x = ground arith

bad_byte-ascii_lower : (x : ℕ) → bad_byte (ascii_lower x) ≡ bad_byte x
unfolding ascii_lower
bad_byte-ascii_lower x = ground arith

dot-ascii_lower : (x : ℕ) → (ascii_lower x == 0x2e) ≡ (x == 0x2e)
unfolding ascii_lower
dot-ascii_lower x = ground arith

length-lower : (name : Bytes) → length (lower name) ≡ length name
length-lower [] = refl
length-lower (x ∷ xs) = ap suc (length-lower xs)

lower-lower : (name : Bytes) → lower (lower name) ≡ lower name
lower-lower [] = refl
lower-lower (x ∷ xs) = rw (ascii_lower_twice x, lower-lower xs) refl

check_bytes-lower : (n : ℕ) (name : Bytes) → check_bytes n (lower name) ≡ check_bytes n name
unfolding check_bytes
check_bytes-lower n [] = refl
check_bytes-lower n (x ∷ xs) = rw (bad_byte-ascii_lower x, check_bytes-lower (n + 1) xs) refl

or_first_dot-lower : (x : ℕ) (o : Option ℕ) → or_first_dot (ascii_lower x) o ≡ or_first_dot x o
or_first_dot-lower x (some i) = refl
or_first_dot-lower x none = rw (dot-ascii_lower x) refl

last_dot-lower : (name : Bytes) → last_dot (lower name) ≡ last_dot name
unfolding last_dot
last_dot-lower [] = refl
last_dot-lower (x ∷ xs) =
    ap (or_first_dot (ascii_lower x)) (last_dot-lower xs) ∙ or_first_dot-lower x (last_dot xs)

canonical-lower :
    (out_bytes : ℕ) (name : Bytes) → canonical out_bytes (lower name) ≡ canonical out_bytes name
unfolding canonical
canonical-lower out_bytes name =
    rw (check_bytes-lower 0 name, last_dot-lower name, length-lower name, lower-lower name) refl

both : (a b : ℕ) (c : Bool) → (a == b && c) ≡ true → (a ≡ b) × (c ≡ true)
both a b c e = ground arith

-- Two names are equal exactly if their lower-case forms are.
pub equal_iff : (left right : Bytes) → (equal left right ≡ true) ↔ (lower left ≡ lower right)
unfolding equal
equal_iff [] [] = (λ _. refl, λ _. refl)
equal_iff [] (y ∷ ys) = (λ e. cc, λ e. cc)
equal_iff (x ∷ xs) [] = (λ e. cc, λ e. cc)
equal_iff (x ∷ xs) (y ∷ ys) =
    let (there, back) = equal_iff xs ys in
    (
      λ e.
          let (first, rest) = both (ascii_lower x) (ascii_lower y) (equal xs ys) e in
          let tails = there rest in cc,
      λ e.
          let first : ascii_lower x ≡ ascii_lower y = cc in
          let tails : lower xs ≡ lower ys = cc in rw (first, back tails) (ground arith),
    )

-- Names that are equal up to case have one canonical form, or are refused for one reason.
pub canonical-equal :
    (out_bytes : ℕ) (left right : Bytes)
    → equal left right ≡ true
    → canonical out_bytes left ≡ canonical out_bytes right
canonical-equal out_bytes left right e =
    sym (canonical-lower out_bytes left)
    ∙ ap (canonical out_bytes) ((equal_iff left right).0 e)
    ∙ canonical-lower out_bytes right

append_nil : (xs : Bytes) → xs ++ [] ≡ xs
append_nil [] = refl
append_nil (x ∷ xs) = ap (◌∷◌ x) (append_nil xs)

lower-append : (xs ys : Bytes) → lower (xs ++ ys) ≡ lower xs ++ lower ys
lower-append [] ys = refl
lower-append (x ∷ xs) ys = ap (◌∷◌ (ascii_lower x)) (lower-append xs ys)

-- The name with the extension behind it.
check_bytes-dll :
    (n : ℕ) (xs : Bytes)
    → check_bytes n xs ≡ ok tt
    → n + length xs + 4 ≤ name_max
    → check_bytes n (xs ++ dll) ≡ ok tt
unfolding check_bytes
check_bytes-dll n [] e h = ground arith
check_bytes-dll n (x ∷ xs) e h = ground (arith, check_bytes-dll (n + 1) xs)

last_dot-dll : (xs : Bytes) → last_dot (xs ++ dll) ≡ some (length xs + 1)
unfolding last_dot
last_dot-dll [] = refl
last_dot-dll (x ∷ xs) =
    let count : length xs + 1 + 1 ≡ suc (length xs) + 1 = omega arith in
    rw (last_dot-dll xs) (ap some count)

-- The tests that a name has passed, and the form that it got.
canonical_tests :
    (out_bytes : ℕ) (name out : Bytes)
    → canonical out_bytes name ≡ ok out
    → (out_bytes ≢ 0)
      × (check_bytes 0 name ≡ ok tt)
      × (length name ≢ 0)
      × (((has_extension name ≡ true) × (out ≡ lower name ++ []) × (length name + 1 ≤ out_bytes))
          ⊎ ((has_extension name ≡ false)
              × (out ≡ lower name ++ dll)
              × (length name + 5 ≤ out_bytes)))
unfolding canonical
canonical_tests out_bytes name out e = elim (Bool-cases (has_extension name)) [
  | inl there ↦ let at = rw there at e in ground arith
  | inr missing ↦ let at = rw missing at e in ground arith
]

canonical-dll :
    (out_bytes : ℕ) (xs : Bytes)
    → check_bytes 0 xs ≡ ok tt
    → length xs + 5 ≤ out_bytes
    → out_bytes ≤ name_max + 1
    → canonical out_bytes (xs ++ dll) ≡ ok (lower xs ++ dll)
unfolding canonical ascii_lower
canonical-dll out_bytes xs good room small =
    let whole : length (xs ++ dll) ≡ length xs + 4 = length-append xs dll in
    let checked = check_bytes-dll 0 xs good (omega arith) in
    let some_bytes : (out_bytes == 0) ≡ false = ground arith in
    let nonempty : (length xs + 4 == 0) ≡ false = ground arith in
    let inside : (length xs + 1 == length xs + 4) ≡ false = ground arith in
    let fits : ltb out_bytes (length xs + 4 + 1) ≡ false = ground arith in
    rw
      (
        some_bytes,
        checked,
        last_dot-dll xs,
        whole,
        nonempty,
        inside,
        fits,
        lower-append xs dll,
        append_nil (lower xs ++ dll),
      )
      refl

-- In a buffer of 64 bytes at most, a canonical name is its own canonical form.
pub canonical-canonical :
    (out_bytes : ℕ) (name out : Bytes)
    → out_bytes ≤ name_max + 1
    → canonical out_bytes name ≡ ok out
    → canonical out_bytes out ≡ ok out
canonical-canonical out_bytes name out small e =
    let (some_bytes, good, nonempty, form) = canonical_tests out_bytes name out e in
    elim form [
      | inl (there, same, fits) ↦
          let plain : out ≡ lower name = same ∙ append_nil (lower name) in
          ap (canonical out_bytes) plain ∙ canonical-lower out_bytes name ∙ e
      | inr (missing, same, fits) ↦
          let again =
            canonical-dll out_bytes (lower name) (check_bytes-lower 0 name ∙ good)
              (omega (arith, length-lower name)) small in
          let settled : lower (lower name) ++ dll ≡ out = rw (lower-lower name) (sym same) in
          ap (canonical out_bytes) same ∙ again ∙ ap ok settled
    ]
