-- ===== src/Registry/Values/Laws.antt =====
-- The values of the registry are a map from keys and names, up to the case of the names.
use ps5_homebrew_lab.Common.{
  ℕ, zero, suc, ◌+◌, ◌≡◌, ◌≢◌, ◌⊎◌, inl, inr, true, false, none, some, List, [], ◌∷◌, get_elem?,
  set, arith, refl, sym, ◌∙◌, Bool-cases,
}
use ps5_homebrew_lab.Pe.Bytes.{Bytes}
use ps5_homebrew_lab.Registry.{Value, equal}
use ps5_homebrew_lab.Registry.Values.{is_value, find_slot, same_data, find_value}

pub equal_refl : (a : Bytes) → equal a a ≡ true
unfolding equal
equal_refl [] = refl
equal_refl (x ∷ a) = ground (arith, equal_refl a)

pub equal_sym : (a b : Bytes) → equal a b ≡ true → equal b a ≡ true
unfolding equal
equal_sym [] [] e = refl
equal_sym [] (y ∷ b) e = cc
equal_sym (x ∷ a) [] e = cc
equal_sym (x ∷ a) (y ∷ b) e = let rest = equal_sym a b (ground arith) in ground (arith, rest)

pub equal_trans : (a b c : Bytes) → equal a b ≡ true → equal b c ≡ true → equal a c ≡ true
unfolding equal
equal_trans [] [] c e f = f
equal_trans [] (y ∷ b) c e f = cc
equal_trans (x ∷ a) [] c e f = cc
equal_trans (x ∷ a) (y ∷ b) [] e f = cc
equal_trans (x ∷ a) (y ∷ b) (z ∷ c) e f =
    let rest = equal_trans a b c (ground arith) (ground arith) in ground (arith, rest)

-- Two requests that name different values.
abbrev pub Apart : ℕ → Bytes → ℕ → Bytes → Type 0
Apart key name key' name' = (key ≢ key') ⊎ (equal name name' ≡ false)

pub same_data_lem : (a b : Bytes) → same_data a b ≡ true → a ≡ b
same_data_lem [] [] e = refl
same_data_lem [] (y ∷ b) e = cc
same_data_lem (x ∷ a) [] e = cc
same_data_lem (x ∷ a) (y ∷ b) e =
    let rest = same_data_lem a b (ground arith) in
    let first : x ≡ y = ground arith in cc (rest, first)

-- A value with the name stands at a place, and none before it.
abbrev pub Hit : List Value → ℕ → ℕ → Bytes → Type 0
Hit [] i key name = false ≡ true
Hit (v ∷ vs) zero key name = is_value key name v ≡ true
Hit (v ∷ vs) (suc i) key name = (is_value key name v ≡ false) × Hit vs i key name

-- The place is unused, and no value has the name.
abbrev pub Free : List Value → ℕ → ℕ → Bytes → Type 0
Free [] i key name = false ≡ true
Free (v ∷ vs) zero key name = (v.used ≡ false) × (find_value vs key name ≡ none)
Free (v ∷ vs) (suc i) key name = (is_value key name v ≡ false) × Free vs i key name

abbrev pub IsSlot : List Value → ℕ → ℕ → Bytes → Type 0
IsSlot vs i key name = Hit vs i key name ⊎ Free vs i key name

find_slot_kept :
    (vs : List Value) (key : ℕ) (name : Bytes) (base s j : ℕ)
    → find_slot vs key name base (some s) ≡ some j
    → ((j ≡ s) × (find_value vs key name ≡ none)) ⊎ ((i : ℕ) × (j ≡ base + i) × Hit vs i key name)
unfolding find_slot find_value
find_slot_kept [] key name base s j e = inl (cc, refl)
find_slot_kept (v ∷ vs) key name base s j e = elim (Bool-cases (is_value key name v)) [
  | inl hit ↦ inr (0, ground arith, hit)
  | inr miss ↦ elim (find_slot_kept vs key name (base + 1) s j (rw miss at e)) [
    | inl (same, nowhere) ↦ inl (same, rw (miss, nowhere) refl)
    | inr (i, place, hit) ↦ inr (suc i, omega (arith, place), (miss, hit))
  ]
]

pub find_slot-IsSlot :
    (vs : List Value) (key : ℕ) (name : Bytes) (base j : ℕ)
    → find_slot vs key name base none ≡ some j
    → (i : ℕ) × (j ≡ base + i) × IsSlot vs i key name
unfolding find_slot find_value
find_slot-IsSlot [] key name base j e = cc
find_slot-IsSlot (v ∷ vs) key name base j e = elim (Bool-cases (is_value key name v)) [
  | inl hit ↦ (0, ground arith, inl hit)
  | inr miss ↦ elim (Bool-cases v.used) [
    | inr free ↦ elim (find_slot_kept vs key name (base + 1) base j (rw (miss, free) at e)) [
      | inl (same, nowhere) ↦ (0, omega (arith, same), inr (free, nowhere))
      | inr (i, place, hit) ↦ (suc i, omega (arith, place), inl (miss, hit))
    ]
    | inl full ↦
        let (i, place, slot) = find_slot-IsSlot vs key name (base + 1) j (rw (miss, full) at e) in
        (
          suc i,
          omega (arith, place),
          elim slot [ inl hit ↦ inl (miss, hit) | inr free ↦ inr (miss, free) ],
        )
  ]
]

-- After the write, the search finds the new value.
pub find_value-set :
    (vs : List Value) (key : ℕ) (name : Bytes) (i : ℕ) (w : Value)
    → IsSlot vs i key name
    → is_value key name w ≡ true
    → find_value (set vs i w) key name ≡ some w
unfolding find_value
find_value-set [] key name i w slot h = ground arith
find_value-set (v ∷ vs) key name zero w slot h = rw h refl
find_value-set (v ∷ vs) key name (suc i) w (inl (miss, hit)) h =
    rw miss (find_value-set vs key name i w (inl hit) h)
find_value-set (v ∷ vs) key name (suc i) w (inr (miss, free)) h =
    rw miss (find_value-set vs key name i w (inr free) h)

is_value-Apart :
    (key : ℕ) (name : Bytes) (key' : ℕ) (name' : Bytes) (v : Value)
    → Apart key name key' name'
    → is_value key name v ≡ true
    → is_value key' name' v ≡ false
is_value-Apart key name key' name' v apart h = elim (Bool-cases (equal v.name name')) [
  | inr other ↦ ground arith
  | inl same ↦
      let near = equal_sym v.name name (ground arith) in
      let both = equal_trans name v.name name' near same in ground (arith, both)
]

-- No other search is changed.
pub find_value_others :
    (vs : List Value) (key : ℕ) (name : Bytes) (i : ℕ) (w : Value) (key' : ℕ) (name' : Bytes)
    → IsSlot vs i key name
    → is_value key name w ≡ true
    → Apart key name key' name'
    → find_value (set vs i w) key' name' ≡ find_value vs key' name'
unfolding find_value
find_value_others [] key name i w key' name' slot h apart = refl
find_value_others (v ∷ vs) key name zero w key' name' (inl hit) h apart =
    rw
      (is_value-Apart key name key' name' w apart h, is_value-Apart key name key' name' v apart hit)
      refl
find_value_others (v ∷ vs) key name zero w key' name' (inr (free, nowhere)) h apart =
    rw (is_value-Apart key name key' name' w apart h, free) refl
find_value_others (v ∷ vs) key name (suc i) w key' name' (inl (miss, hit)) h apart =
    let rest = find_value_others vs key name i w key' name' (inl hit) h apart in rw rest refl
find_value_others (v ∷ vs) key name (suc i) w key' name' (inr (miss, free)) h apart =
    let rest = find_value_others vs key name i w key' name' (inr free) h apart in rw rest refl

pub find_value-Hit :
    (vs : List Value) (key : ℕ) (name : Bytes) (i : ℕ) (v : Value)
    → Hit vs i key name
    → get_elem? vs i ≡ some v
    → find_value vs key name ≡ some v
unfolding find_value
find_value-Hit [] key name i v hit e = ground arith
find_value-Hit (x ∷ vs) key name zero v hit e = rw hit e
find_value-Hit (x ∷ vs) key name (suc i) v (miss, hit) e =
    rw miss (find_value-Hit vs key name i v hit e)

pub Free-unused :
    (vs : List Value) (key : ℕ) (name : Bytes) (i : ℕ) (v : Value)
    → Free vs i key name
    → get_elem? vs i ≡ some v
    → v.used ≡ false
Free-unused [] key name i v free e = ground arith
Free-unused (x ∷ vs) key name zero v (unused, nowhere) e = ground arith
Free-unused (x ∷ vs) key name (suc i) v (miss, free) e = Free-unused vs key name i v free e

-- Names that are equal up to case find the same value.
pub find_value-equal :
    (vs : List Value) (key : ℕ) (name name' : Bytes)
    → equal name name' ≡ true
    → find_value vs key name' ≡ find_value vs key name
unfolding find_value
find_value-equal [] key name name' e = refl
find_value-equal (v ∷ vs) key name name' e =
    let forth = equal_trans v.name name name' in
    let back = equal_trans v.name name' name in
    let turned = equal_sym name name' e in
    let rest = find_value-equal vs key name name' e in
    let same : equal v.name name' ≡ equal v.name name = elim (Bool-cases (equal v.name name)) [
      | inl yes_name ↦ forth yes_name e ∙ sym yes_name
      | inr no_name ↦ elim (Bool-cases (equal v.name name')) [
        | inl yes_other ↦ ground (arith, back yes_other turned)
        | inr no_other ↦ no_other ∙ sym no_name
      ]
    ] in
    rw (same, rest) refl
