-- ===== src/ImportBind/Slots.antt =====
-- The slots that pw_import_bind32 fills: they lie in the image, they do not overlap, and each holds its target.
use ps5_homebrew_lab.Common.{
  ℕ, ◌+◌, ◌^◌, ◌≤◌, ◌<◌, ◌≡◌, ◌≢◌, ◌⊎◌, inl, inr, true, false, some, List, [], ◌∷◌, ◌++◌, length,
  Outcome, ok, err, fault, arith, refl, Bool-cases, Option-cases, ◌==◌,
}
use ps5_homebrew_lab.Pe.Bytes.{Bytes}
use ps5_homebrew_lab.Pe.Image.{Image}
use ps5_homebrew_lab.Pe.Import.{Module, Symbol, enumerate}
use ps5_homebrew_lab.Map.{Mapped, writable}
use ps5_homebrew_lab.ImportBind.{
  Target, Write, Collected, overlaps, bad_target, add_target, collect_symbol, continue_with,
  collect_symbols, collect_module, collect_modules, capacity, import_function, import_data,
}

-- A place that is no part of a slot of the list, for a span of 4 bytes and for a byte.
abbrev pub Away : ℕ → List Write → Type 0
Away rva [] = true ≡ true
Away rva (w ∷ ws) = ((w.rva + 4 ≤ rva) ⊎ (rva + 4 ≤ w.rva)) × Away rva ws

abbrev pub Outside : ℕ → List Write → Type 0
Outside j [] = true ≡ true
Outside j (w ∷ ws) = ((j < w.rva) ⊎ (w.rva + 4 ≤ j)) × Outside j ws

abbrev pub Separate : List Write → Type 0
Separate [] = true ≡ true
Separate (w ∷ ws) = Away w.rva ws × Separate ws

abbrev pub Fits : ℕ → List Write → Type 0
Fits image_bytes [] = true ≡ true
Fits image_bytes (w ∷ ws) =
    (w.rva + 4 ≤ image_bytes) × (w.value ≢ 0) × (w.value < 2 ^ 32) × Fits image_bytes ws

Away-append :
    (rva : ℕ) (ws : List Write) (w : Write)
    → Away rva ws
    → (w.rva + 4 ≤ rva) ⊎ (rva + 4 ≤ w.rva)
    → Away rva (ws ++ (w ∷ []))
Away-append rva [] w a h = (h, refl)
Away-append rva (u ∷ ws) w a h = (a.0, Away-append rva ws w a.1 h)

overlaps-Away :
    (ws : List Write) (w : Write)
    → overlaps ws w.rva ≡ false
    → Separate ws
    → Separate (ws ++ (w ∷ []))
unfolding overlaps
overlaps-Away [] w e s = (refl, refl)
overlaps-Away (u ∷ ws) w e s =
    (Away-append u.rva ws w s.0 (ground arith), overlaps-Away ws w (ground arith) s.1)

Fits-append :
    (n : ℕ) (ws : List Write) (w : Write)
    → Fits n ws
    → w.rva + 4 ≤ n
    → w.value ≢ 0
    → w.value < 2 ^ 32
    → Fits n (ws ++ (w ∷ []))
Fits-append n [] w f a b c = (a, b, c, refl)
Fits-append n (u ∷ ws) w (x, y, z, f) a b c = (x, y, z, Fits-append n ws w f a b c)

writable-inside :
    (m : Mapped) (rva slot : ℕ) → writable m rva 4 ≡ some slot → rva + 4 ≤ m.image_bytes
unfolding writable
writable-inside m rva slot e = ground arith

-- Every write is of one of the two kinds.
abbrev pub AllKnown : List Write → Type 0
AllKnown [] = true ≡ true
AllKnown (w ∷ ws) = ((w.kind ≡ import_function) ⊎ (w.kind ≡ import_data)) × AllKnown ws

AllKnown-append :
    (ws : List Write) (w : Write)
    → AllKnown ws
    → (w.kind ≡ import_function) ⊎ (w.kind ≡ import_data)
    → AllKnown (ws ++ (w ∷ []))
AllKnown-append [] w a h = (h, refl)
AllKnown-append (u ∷ ws) w a h = (a.0, AllKnown-append ws w a.1 h)

abbrev pub IsBindable : Mapped → List Write → Type 0
IsBindable m ws = (Fits m.image_bytes ws × Separate ws) × AllKnown ws

add_target-IsBindable :
    {S : Type 0} (m : Mapped) (ws : List Write) (rva : ℕ) (r : S × Outcome Target) (s' : S)
    (ws' : List Write)
    → add_target ws rva r ≡ (s', ok ws')
    → rva + 4 ≤ m.image_bytes
    → overlaps ws rva ≡ false
    → IsBindable m ws
    → IsBindable m ws'
unfolding add_target
add_target-IsBindable m ws rva (s, err e) s' ws' h room free g = cc
add_target-IsBindable m ws rva (s, fault) s' ws' h room free g = cc
add_target-IsBindable m ws rva (s, ok t) s' ws' h room free g = elim (Bool-cases (bad_target t)) [
  | inl bad ↦ let h₁ = rw bad at h in cc
  | inr good ↦
      let w : Write = record { rva = rva; value = t.address; kind = t.kind } in
      let h₁ = rw good at h in
      let same : ws ++ (w ∷ []) ≡ ws' = cc in
      rw (← same) (
        (
          Fits-append m.image_bytes ws w g.0.0 room (ground arith) (ground arith),
          overlaps-Away ws w free g.0.1,
        ),
        AllKnown-append ws w g.1 (ground arith),
      )
]

module _ {S : Type 0} (resolve : S → Bytes → Symbol → S × Outcome Target) (m : Mapped) where
  collect_symbol-IsBindable :
      (s : S) (name : Bytes) (ws : List Write) (symbol : Symbol) (s' : S) (ws' : List Write)
      → collect_symbol resolve m s name ws symbol ≡ (s', ok ws')
      → IsBindable m ws
      → IsBindable m ws'
  unfolding collect_symbol
  collect_symbol-IsBindable s name ws symbol s' ws' e g =
      elim (Bool-cases (length ws == capacity)) [
        | inl full ↦ let e₁ = rw full at e in cc
        | inr room ↦ elim (Option-cases (writable m symbol.thunk_rva 4)) [
          | inl outside ↦ let e₁ = rw (room, outside) at e in cc
          | inr (slot, inside) ↦ elim (Bool-cases (overlaps ws symbol.thunk_rva)) [
            | inl taken ↦ let e₁ = rw (room, inside, taken) at e in cc
            | inr free ↦
                add_target-IsBindable m ws symbol.thunk_rva (resolve s name symbol) s' ws'
                  (rw (room, inside, free) at e) (writable-inside m symbol.thunk_rva slot inside)
                  free g
          ]
        ]
      ]

  pub continue_with-ok :
      (c : Collected S) (rest : S → List Write → Collected S) (s' : S) (ws' : List Write)
      → continue_with c rest ≡ (s', ok ws')
      → (s₁ : S) × (ws₁ : List Write) × (c ≡ (s₁, ok ws₁)) × (rest s₁ ws₁ ≡ (s', ok ws'))
  continue_with-ok (s, ok ws) rest s' ws' e = (s, ws, refl, e)
  continue_with-ok (s, err code) rest s' ws' e = cc
  continue_with-ok (s, fault) rest s' ws' e = cc

  collect_symbols-IsBindable :
      (s : S) (name : Bytes) (ws : List Write) (symbols : List Symbol) (s' : S) (ws' : List Write)
      → collect_symbols resolve m s name ws symbols ≡ (s', ok ws')
      → IsBindable m ws
      → IsBindable m ws'
  unfolding collect_symbols
  collect_symbols-IsBindable s name ws [] s' ws' e g = let same : ws ≡ ws' = cc in rw (← same) g
  collect_symbols-IsBindable s name ws (x ∷ xs) s' ws' e g =
      let (s₁, ws₁, first, rest) =
        continue_with-ok (collect_symbol resolve m s name ws x) _ s' ws' e in
      collect_symbols-IsBindable s₁ name ws₁ xs s' ws' rest
        (collect_symbol-IsBindable s name ws x s₁ ws₁ first g)

  collect_module-IsBindable :
      (s : S) (name : Bytes) (ws : List Write) (o : Outcome (List Symbol)) (s' : S)
      (ws' : List Write)
      → collect_module resolve m s name ws o ≡ (s', ok ws')
      → IsBindable m ws
      → IsBindable m ws'
  collect_module-IsBindable s name ws (ok symbols) s' ws' e g =
      collect_symbols-IsBindable s name ws symbols s' ws' e g
  collect_module-IsBindable s name ws (err code) s' ws' e g = cc
  collect_module-IsBindable s name ws fault s' ws' e g = cc

  pub collect_modules-IsBindable :
      (im : Image) (s : S) (ws : List Write) (is : List Module) (s' : S) (ws' : List Write)
      → collect_modules resolve m im s ws is ≡ (s', ok ws')
      → IsBindable m ws
      → IsBindable m ws'
  unfolding collect_modules
  collect_modules-IsBindable im s ws [] s' ws' e g = let same : ws ≡ ws' = cc in rw (← same) g
  collect_modules-IsBindable im s ws (i ∷ is) s' ws' e g =
      let (s₁, ws₁, first, rest) =
        continue_with-ok (collect_module resolve m s i.name ws (enumerate im i capacity)) _ s' ws'
          e in
      collect_modules-IsBindable im s₁ ws₁ is s' ws' rest
        (collect_module-IsBindable s i.name ws (enumerate im i capacity) s₁ ws₁ first g)
