-- ===== src/ImportBind/Runs.antt =====
-- The writes that pw_import_bind32 collects, against the import table and the resolver: one for each symbol of each
-- module, in the order of the table, with the target that the resolver gave for it.
use ps5_homebrew_lab.Common.{
  ◌≡◌, List, [], ◌∷◌, ◌++◌, Outcome, ok, err, fault, refl, ap, sym, ◌∙◌, Bool-cases, Option-cases,
  inl, inr, length, ◌==◌,
}
use mathlib.Core.List.{append-nil, append_assoc}
use ps5_homebrew_lab.Pe.Bytes.{Bytes}
use ps5_homebrew_lab.Pe.Image.{Image}
use ps5_homebrew_lab.Pe.Import.{Module, Symbol, enumerate}
use ps5_homebrew_lab.Map.{Mapped, writable}
use ps5_homebrew_lab.ImportBind.{
  Target, Write, overlaps, bad_target, add_target, collect_symbol, collect_symbols, collect_module,
  collect_modules, capacity,
}
use ps5_homebrew_lab.ImportBind.Slots.{continue_with-ok}

-- The write that puts a target into the slot of a symbol.
abbrev pub write_of : Symbol → Target → Write
write_of symbol t = record { rva = symbol.thunk_rva; value = t.address; kind = t.kind }

module _ {S : Type 0} (resolve : S → Bytes → Symbol → S × Outcome Target) where
  -- The resolver is called for each symbol of a module in turn, and each call gives the target of one write.
  pub data Resolved (name : Bytes) : S → List Symbol → S → List Write → Type 0 where
    no_symbol : {s : S} → Resolved name s [] s []
    next_symbol :
        {s : S} {symbol : Symbol} {s₁ : S} {t : Target} {symbols : List Symbol} {s' : S}
        {ws : List Write}
        → resolve s name symbol ≡ (s₁, ok t)
        → Resolved name s₁ symbols s' ws
        → Resolved name s (symbol ∷ symbols) s' (write_of symbol t ∷ ws)

  -- The same for the modules of a table, with the symbols that the tables of the image name for each.
  pub data AllResolved (im : Image) : S → List Module → S → List Write → Type 0 where
    no_module : {s : S} → AllResolved im s [] s []
    next_module :
        {s : S} {i : Module} {symbols : List Symbol} {s₁ : S} {ws : List Write} {is : List Module}
        {s' : S} {rest : List Write}
        → enumerate im i capacity ≡ ok symbols
        → Resolved i.name s symbols s₁ ws
        → AllResolved im s₁ is s' rest
        → AllResolved im s (i ∷ is) s' (ws ++ rest)

add_target-ok :
    {S : Type 0} (ws : List Write) (symbol : Symbol) (r : S × Outcome Target) (s' : S)
    (ws' : List Write)
    → add_target ws symbol.thunk_rva r ≡ (s', ok ws')
    → (t : Target) × (r ≡ (s', ok t)) × (ws' ≡ ws ++ (write_of symbol t ∷ []))
unfolding add_target
add_target-ok ws symbol (s, err e) s' ws' h = cc
add_target-ok ws symbol (s, fault) s' ws' h = cc
add_target-ok ws symbol (s, ok t) s' ws' h = elim (Bool-cases (bad_target t)) [
  | inl bad ↦ let h₁ = rw bad at h in cc
  | inr good ↦ let h₁ = rw good at h in (t, cc, cc)
]

module _ {S : Type 0} (resolve : S → Bytes → Symbol → S × Outcome Target) (m : Mapped) where
  collect_symbol-ok :
      (s : S) (name : Bytes) (ws : List Write) (symbol : Symbol) (s' : S) (ws' : List Write)
      → collect_symbol resolve m s name ws symbol ≡ (s', ok ws')
      → (t : Target) × (resolve s name symbol ≡ (s', ok t)) × (ws' ≡ ws ++ (write_of symbol t ∷ []))
  unfolding collect_symbol
  collect_symbol-ok s name ws symbol s' ws' e = elim (Bool-cases (length ws == capacity)) [
    | inl full ↦ let e₁ = rw full at e in cc
    | inr room ↦ elim (Option-cases (writable m symbol.thunk_rva 4)) [
      | inl outside ↦ let e₁ = rw (room, outside) at e in cc
      | inr (slot, inside) ↦ elim (Bool-cases (overlaps ws symbol.thunk_rva)) [
        | inl taken ↦ let e₁ = rw (room, inside, taken) at e in cc
        | inr free ↦
            add_target-ok ws symbol (resolve s name symbol) s' ws' (rw (room, inside, free) at e)
      ]
    ]
  ]

  collect_symbols-Resolved :
      (s : S) (name : Bytes) (ws : List Write) (symbols : List Symbol) (s' : S) (ws' : List Write)
      → collect_symbols resolve m s name ws symbols ≡ (s', ok ws')
      → (new : List Write) × (ws' ≡ ws ++ new) × Resolved resolve name s symbols s' new
  unfolding collect_symbols
  collect_symbols-Resolved s name ws [] s' ws' e =
      let same : s ≡ s' = cc in
      let kept : ws ≡ ws' = cc in ([], sym kept ∙ sym (append-nil ws), rw (← same) no_symbol)
  collect_symbols-Resolved s name ws (x ∷ xs) s' ws' e =
      let (s₁, ws₁, first, rest) =
        continue_with-ok resolve m (collect_symbol resolve m s name ws x) _ s' ws' e in
      let (t, resolved, shape) = collect_symbol-ok s name ws x s₁ ws₁ first in
      let (new, all, others) = collect_symbols-Resolved s₁ name ws₁ xs s' ws' rest in
      (
        write_of x t ∷ new,
        all ∙ ap (λ u. u ++ new) shape ∙ append_assoc ws (write_of x t ∷ []) new,
        next_symbol resolved others,
      )

  collect_module-Resolved :
      (s : S) (name : Bytes) (ws : List Write) (o : Outcome (List Symbol)) (s' : S)
      (ws' : List Write)
      → collect_module resolve m s name ws o ≡ (s', ok ws')
      → (symbols : List Symbol) × (new : List Write) × (o ≡ ok symbols)
        × (ws' ≡ ws ++ new)
        × Resolved resolve name s symbols s' new
  collect_module-Resolved s name ws (ok symbols) s' ws' e =
      let (new, all, r) = collect_symbols-Resolved s name ws symbols s' ws' e in
      (symbols, new, refl, all, r)
  collect_module-Resolved s name ws (err code) s' ws' e = cc
  collect_module-Resolved s name ws fault s' ws' e = cc

  pub collect_modules-AllResolved :
      (im : Image) (s : S) (ws : List Write) (is : List Module) (s' : S) (ws' : List Write)
      → collect_modules resolve m im s ws is ≡ (s', ok ws')
      → (new : List Write) × (ws' ≡ ws ++ new) × AllResolved resolve im s is s' new
  unfolding collect_modules
  collect_modules-AllResolved im s ws [] s' ws' e =
      let same : s ≡ s' = cc in
      let kept : ws ≡ ws' = cc in ([], sym kept ∙ sym (append-nil ws), rw (← same) no_module)
  collect_modules-AllResolved im s ws (i ∷ is) s' ws' e =
      let (s₁, ws₁, first, rest) =
        continue_with-ok resolve m (collect_module resolve m s i.name ws (enumerate im i capacity))
          _ s' ws' e in
      let (symbols, new, listed, shape, r) =
        collect_module-Resolved s i.name ws (enumerate im i capacity) s₁ ws₁ first in
      let (later, all, others) = collect_modules-AllResolved im s₁ ws₁ is s' ws' rest in
      (
        new ++ later,
        all ∙ ap (λ u. u ++ later) shape ∙ append_assoc ws new later,
        next_module listed r others,
      )
