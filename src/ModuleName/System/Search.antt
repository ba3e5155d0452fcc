-- ===== src/ModuleName/System/Search.antt =====
-- The binary search in system_modules finds exactly the names of the table.
use ps5_homebrew_lab.Common.{
  ℕ, zero, suc, ◌+◌, ◌-◌, ◌/◌, ◌≤◌, ◌<◌, ◌≡◌, ◌⊎◌, inl, inr, Bool, true, ◌&&◌, some, List, [], ◌∷◌,
  length, get_elem?, ltb, ◌==◌, arith, refl, Bool-cases, Option-cases, below_or, ◌↔◌,
  get_elem?-bound, get_elem?-below,
}
use ps5_homebrew_lab.Pe.Bytes.{Bytes}
use ps5_homebrew_lab.ModuleName.System.{
  Order, below, same, above, strcmp, search, sorted, is_below, is_system, system_modules,
  system_modules-sorted,
}

strcmp-same : (a b : Bytes) → strcmp a b ≡ same → a ≡ b
unfolding strcmp
strcmp-same [] [] e = refl
strcmp-same [] (y ∷ b) e = ground arith
strcmp-same (x ∷ a) [] e = ground arith
strcmp-same (x ∷ a) (y ∷ b) e = elim (Bool-cases (x == y)) [
  | inl here ↦
      let rest = strcmp-same a b (rw here at e) in
      let first : x ≡ y = ground arith in cc (rest, first)
  | inr apart ↦ ground arith
]

strcmp_refl : (a : Bytes) → strcmp a a ≡ same
unfolding strcmp
strcmp_refl [] = refl
strcmp_refl (x ∷ a) = ground (arith, strcmp_refl a)

strcmp-below : (a b : Bytes) → strcmp a b ≡ below → strcmp b a ≡ above
unfolding strcmp
strcmp-below [] [] e = ground arith
strcmp-below [] (y ∷ b) e = refl
strcmp-below (x ∷ a) [] e = ground arith
strcmp-below (x ∷ a) (y ∷ b) e = elim (Bool-cases (x == y)) [
  | inl here ↦ let rest = strcmp-below a b (rw here at e) in ground (arith, rest)
  | inr apart ↦ ground arith
]

strcmp_trans : (a b c : Bytes) → strcmp a b ≡ below → strcmp b c ≡ below → strcmp a c ≡ below
unfolding strcmp
strcmp_trans [] [] c e f = f
strcmp_trans [] (y ∷ b) [] e f = ground arith
strcmp_trans [] (y ∷ b) (z ∷ c) e f = refl
strcmp_trans (x ∷ a) [] c e f = ground arith
strcmp_trans (x ∷ a) (y ∷ b) [] e f = ground arith
strcmp_trans (x ∷ a) (y ∷ b) (z ∷ c) e f = elim (Bool-cases (x == y)) [
  | inr apart ↦ ground arith
  | inl here ↦ elim (Bool-cases (y == z)) [
    | inr apart ↦ ground arith
    | inl there ↦
        let rest = strcmp_trans a b c (rw here at e) (rw there at f) in ground (arith, rest)
  ]
]

Order-cases : (o : Order) → (o ≡ same) ⊎ (o ≡ below) ⊎ (o ≡ above)
Order-cases same = inl refl
Order-cases below = inr (inl refl)
Order-cases above = inr (inr refl)

-- In a sorted table the entries rise.
first_below :
    (a b : Bytes) (rest : Bool) → (is_below (strcmp a b) && rest) ≡ true → strcmp a b ≡ below
first_below a b rest e = elim (Order-cases (strcmp a b)) [
  | inl found ↦ ground arith
  | inr (inl lower) ↦ lower
  | inr (inr upper) ↦ ground arith
]

sorted-tail : (x : Bytes) (t : List Bytes) → sorted (x ∷ t) ≡ true → sorted t ≡ true
unfolding sorted
sorted-tail x [] s = refl
sorted-tail x (y ∷ t) s = ground arith

sorted-head :
    (a : Bytes) (t : List Bytes) (q : ℕ) (b : Bytes)
    → sorted (a ∷ t) ≡ true
    → get_elem? t q ≡ some b
    → strcmp a b ≡ below
unfolding sorted
sorted-head a [] q b s e = cc
sorted-head a (x ∷ t) zero b s e =
    let at : x ≡ b = cc in rw (← at) (first_below a x (sorted (x ∷ t)) s)
sorted-head a (x ∷ t) (suc q) b s e =
    strcmp_trans a x b (first_below a x (sorted (x ∷ t)) s) (sorted-head x t q b (ground arith) e)

sorted-rises :
    (t : List Bytes) (p q : ℕ) (a b : Bytes)
    → sorted t ≡ true
    → get_elem? t p ≡ some a
    → get_elem? t q ≡ some b
    → p < q
    → strcmp a b ≡ below
sorted-rises [] p q a b s e f h = cc
sorted-rises (x ∷ t) p zero a b s e f h = ground arith
sorted-rises (x ∷ t) zero (suc q) a b s e f h =
    let at : x ≡ a = cc in rw (← at) (sorted-head x t q b s f)
sorted-rises (x ∷ t) (suc p) (suc q) a b s e f h =
    sorted-rises t p q a b (sorted-tail x t s) e f (omega arith)

-- What the comparison with an entry tells of the place of a name of the table.
module _ (t : List Bytes) (s : sorted t ≡ true) (i m : ℕ) (name entry : Bytes)
    (e : get_elem? t i ≡ some name) (f : get_elem? t m ≡ some entry) where
  place_below : strcmp name entry ≡ below → i < m
  place_below lower = elim (below_or i m) [
    | inl before ↦ before
    | inr after ↦ elim (below_or m i) [
      | inl behind ↦
          let order = strcmp-below entry name (sorted-rises t m i entry name s f e behind) in
          ground (arith, order)
      | inr level ↦
          let at : m ≡ i = omega arith in
          let one : entry ≡ name = cc in
          let order = strcmp_refl name in
          let lower' : strcmp name name ≡ below = rw one at lower in ground (arith, order, lower')
    ]
  ]

  place_above : strcmp name entry ≡ above → m < i
  place_above upper = elim (below_or m i) [
    | inl before ↦ before
    | inr after ↦ elim (below_or i m) [
      | inl behind ↦ let order = sorted-rises t i m name entry s e f behind in ground (arith, order)
      | inr level ↦
          let at : m ≡ i = omega arith in
          let one : entry ≡ name = cc in
          let order = strcmp_refl name in
          let upper' : strcmp name name ≡ above = rw one at upper in ground (arith, order, upper')
    ]
  ]

-- A name that stands in the interval is found.
search_complete :
    (fuel : ℕ) (t : List Bytes) (name : Bytes) (low high i : ℕ)
    → sorted t ≡ true
    → get_elem? t i ≡ some name
    → low ≤ i
    → i < high
    → high ≤ length t
    → high ≤ low + fuel
    → search fuel t name low high ≡ true
unfolding search
search_complete zero t name low high i s e after before room enough = ground arith
search_complete (suc fuel) t name low high i s e after before room enough =
    let middle = low + (high - low) / 2 in
    let open_interval : ltb low high ≡ true = ground arith in
    let inside : middle < high = omega arith in
    let (entry, there) = get_elem?-below t middle (omega (arith, inside)) in
    elim (Order-cases (strcmp name entry)) [
      | inl found ↦ rw (search, open_interval, there, found) refl
      | inr (inl lower) ↦
          let left = place_below t s i middle name entry e there lower in
          rw (search, open_interval, there, lower)
            (search_complete fuel t name low middle i s e after left (omega (arith, room, inside))
              (omega (arith, inside, enough)))
      | inr (inr upper) ↦
          let right = place_above t s i middle name entry e there upper in
          rw (search, open_interval, there, upper)
            (search_complete fuel t name (middle + 1) high i s e (omega (arith, right)) before room
              (omega (arith, inside, enough)))
    ]

search_sound :
    (fuel : ℕ) (t : List Bytes) (name : Bytes) (low high : ℕ)
    → search fuel t name low high ≡ true
    → (i : ℕ) × (get_elem? t i ≡ some name)
unfolding search
search_sound zero t name low high e = ground arith
search_sound (suc fuel) t name low high e = elim (Bool-cases (ltb low high)) [
  | inr over ↦ let e₁ = rw (over, search) at e in cc
  | inl more ↦
      let e₁ = rw (more, search) at e in
      let middle = low + (high - low) / 2 in
      elim (Option-cases (get_elem? t middle)) [
        | inl nothing ↦ let e₂ = rw nothing at e₁ in cc
        | inr (entry, there) ↦
            let e₂ = rw there at e₁ in
            elim (Order-cases (strcmp name entry)) [
              | inl found ↦ (middle, rw (strcmp-same name entry found) there)
              | inr (inl lower) ↦ search_sound fuel t name low middle (rw lower at e₂)
              | inr (inr upper) ↦ search_sound fuel t name (middle + 1) high (rw upper at e₂)
            ]
      ]
]

-- A name is that of a system module, for the binary search, exactly if it is an entry of the table.
pub is_system_iff :
    (name : Bytes) → (is_system name ≡ true) ↔ ((i : ℕ) × (get_elem? system_modules i ≡ some name))
unfolding is_system
is_system_iff name = (
  search_sound (length system_modules) system_modules name 0 (length system_modules),
  λ (i, e).
      search_complete (length system_modules) system_modules name 0 (length system_modules) i
        system_modules-sorted e (omega arith) (get_elem?-bound system_modules i name e)
        (omega arith) (omega arith),
)
