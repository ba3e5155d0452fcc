-- ===== src/Map/Protect/Laws.antt =====
-- The sweep gives every byte of the image the protection of its page, for every backend whose calls
-- protect the span that they name.
use ps5_homebrew_lab.Common.{
  ℕ, zero, suc, ◌+◌, ◌-◌, ◌%◌, ◌≤◌, ◌<◌, ◌≡◌, ◌⊎◌, inl, inr, ◌&&◌, Option, none, some, ltb, leb,
  ◌==◌, if◌then◌else◌, Outcome, ok, err, fault, arith, refl, sym, ap, ◌∙◌, Bool-cases, below_or,
  min, ==→eq, ltb→lt,
}
use native.Mathlib.Nat.{mod-eq_of_lt, mod-add-mod, add-mod_right}
use ps5_homebrew_lab.Pe.Layout.{Layout}
use ps5_homebrew_lab.Map.{Protection}
use ps5_homebrew_lab.Map.Protect.{
  page_protection, count_page, Sweep, called, resume, turn, last_run, sweep,
}

-- The start of the page of an address.
page_start : ℕ → ℕ → ℕ
page_start page j = j - j % page

page_start_lem :
    (page cursor j : ℕ)
    → 0 < page
    → cursor % page ≡ 0
    → cursor ≤ j
    → j < cursor + page
    → j - j % page ≡ cursor
page_start_lem page cursor j positive aligned after before =
    let split : cursor + (j - cursor) ≡ j = omega arith in
    let sum = mod-add-mod cursor page (j - cursor) in
    let low : j % page ≡ j - cursor =
      ap (λ (t : ℕ). t % page) (sym split)
      ∙ sym sum
      ∙ ap (λ (t : ℕ). (t + (j - cursor)) % page) aligned
      ∙ mod-eq_of_lt (omega arith)
      ∙ omega arith in
    omega (arith, low)

-- The cursor behind a page.
next_aligned :
    (page cursor image_bytes : ℕ)
    → cursor % page ≡ 0
    → cursor < image_bytes
    → ((cursor + min page (image_bytes - cursor)) % page ≡ 0)
      ⊎ (image_bytes ≤ cursor + min page (image_bytes - cursor))
next_aligned page cursor image_bytes aligned more = elim (below_or (image_bytes - cursor) page) [
  | inl last ↦ inr (omega arith)
  | inr whole ↦
      let same : min page (image_bytes - cursor) ≡ page = omega arith in
      inl (rw same (add-mod_right cursor page ∙ aligned))
]

module _ {S : Type 0} (protection_at : S → ℕ → ℕ) where
  -- A call that succeeds protects its span, and nothing else.
  abbrev pub Protects : (S → ℕ → ℕ → ℕ → S × Outcome (Unit {0})) → Type 0
  Protects protect =
      (s : S) (start bytes p : ℕ) (s' : S)
      → protect s start bytes p ≡ (s', ok tt)
      → (j : ℕ)
      → protection_at s' j ≡ (if leb start j && ltb j (start + bytes) then p else protection_at s j)

  module _ (protect : S → ℕ → ℕ → ℕ → S × Outcome (Unit {0})) (law : Protects protect) (l : Layout)
      (page image_bytes : ℕ) (positive : 0 < page) where
    -- The protection of the page of an address.
    abbrev due : ℕ → ℕ
    due j = (page_protection l (j - j % page) page l.header_bytes).0

    abbrev Done : S → ℕ → Type 0
    Done s n = (j : ℕ) → j < n → protection_at s j ≡ due j

    abbrev Pending : ℕ → ℕ → ℕ → Type 0
    Pending start cursor p = (j : ℕ) → start ≤ j → j < cursor → due j ≡ p

    abbrev Inv : ℕ → Option (ℕ × ℕ) → S → Type 0
    Inv cursor none s = cursor ≡ 0
    Inv cursor (some (start, p)) s =
        (start ≤ cursor) × (cursor ≤ image_bytes) × Done s start × Pending start cursor p

    called-ok :
        (c : Protection) (r : S × Outcome (Unit {0})) (s' : S) (c' : Protection)
        → called c r ≡ (s', c', ok tt)
        → r ≡ (s', ok tt)
    unfolding called
    called-ok c (s, ok tt) s' c' e = cc
    called-ok c (s, err code) s' c' e = cc
    called-ok c (s, fault) s' c' e = cc

    resume-ok :
        (w : Sweep S) (rest : S → Protection → Sweep S) (s' : S) (c' : Protection)
        → resume w rest ≡ (s', c', ok tt)
        → (next : S) × (counted : Protection) × (w ≡ (next, counted, ok tt))
          × (rest next counted ≡ (s', c', ok tt))
    resume-ok (s, c, ok tt) rest s' c' e = (s, c, refl, e)
    resume-ok (s, c, err code) rest s' c' e = cc
    resume-ok (s, c, fault) rest s' c' e = cc

    called-Done :
        (s : S) (c : Protection) (start stop p : ℕ) (s' : S) (c' : Protection)
        → called c (protect s start (stop - start) p) ≡ (s', c', ok tt)
        → start ≤ stop
        → Done s start
        → Pending start stop p
        → Done s' stop
    called-Done s c start stop p s' c' e order done pending j inside =
        let written = law s start (stop - start) p s' (called-ok c _ s' c' e) j in
        elim (below_or j start) [
          | inl before ↦ ground (arith, written, done j before)
          | inr after ↦ ground (arith, written, pending j after inside)
        ]

    last_run-Done :
        (run : Option (ℕ × ℕ)) (s : S) (c : Protection) (cursor : ℕ) (s' : S) (c' : Protection)
        → last_run protect l page image_bytes run s c ≡ (s', c', ok tt)
        → image_bytes ≤ cursor
        → Inv cursor run s
        → Done s' image_bytes
    unfolding last_run
    last_run-Done none s c cursor s' c' e finished inv = λ j inside. ground arith
    last_run-Done (some (start, p)) s c cursor s' c' e finished inv =
        called-Done s c start image_bytes p s' c' e (omega (arith, inv.0, inv.1)) inv.2
          (λ j a b. inv.3 j a (omega (arith, finished)))

    -- A page behind the run: the page joins it, or the run is over and the page starts the next one.
    turn-Inv :
        (cursor p : ℕ) (run : Option (ℕ × ℕ)) (s : S) (c : Protection)
        (rest : S → Protection → ℕ × ℕ → Sweep S) (span : ℕ) (s' : S) (c' : Protection)
        → turn protect l page image_bytes cursor p run s c rest ≡ (s', c', ok tt)
        → cursor + span ≤ image_bytes
        → Inv cursor run s
        → ((j : ℕ) → cursor ≤ j → j < cursor + span → due j ≡ p)
        → (next : S) × (counted : Protection) × (running : ℕ × ℕ) × (rest next counted running
            ≡ (s', c', ok tt))
          × Inv (cursor + span) (some running) next
    unfolding turn
    turn-Inv cursor p none s c rest span s' c' e room inv page_due =
        (s, c, (cursor, p), e, (omega arith, room, (λ j h. ground arith), page_due))
    turn-Inv cursor p (some (start, running)) s c rest span s' c' e room inv page_due =
        elim (Bool-cases (p == running)) [
          | inl same ↦ (
            s,
            c,
            (start, running),
            rw same at e,
            (
              omega (arith, inv.0),
              room,
              inv.2,
              λ j after before. elim (below_or j cursor) [
                | inl early ↦ inv.3 j after early
                | inr late ↦ page_due j late before ∙ ==→eq p running same
              ],
            ),
          )
          | inr other ↦
              let e₁ = rw other at e in
              let (next, counted, flushed, rest_ok) =
                resume-ok (called c (protect s start (cursor - start) running)) _ s' c' e₁ in
              let done =
                called-Done s c start cursor running next counted flushed inv.0 inv.2 inv.3 in
              (next, counted, (cursor, p), rest_ok, (omega arith, room, done, page_due))
        ]

    -- The whole sweep.
    pub sweep-Done :
        (fuel cursor : ℕ) (run : Option (ℕ × ℕ)) (s : S) (c : Protection) (s' : S) (c' : Protection)
        → sweep protect l page image_bytes fuel cursor run s c ≡ (s', c', ok tt)
        → cursor ≤ image_bytes
        → (cursor % page ≡ 0) ⊎ (image_bytes ≤ cursor)
        → Inv cursor run s
        → Done s' image_bytes
    unfolding sweep
    sweep-Done zero cursor run s c s' c' e small aligned inv =
        elim (Bool-cases (ltb cursor image_bytes)) [
          | inl more ↦ ground arith
          | inr finished ↦
              last_run-Done run s c cursor s' c' (rw (finished, sweep) at e) (ground arith) inv
        ]
    sweep-Done (suc fuel) cursor run s c s' c' e small aligned inv =
        elim (Bool-cases (ltb cursor image_bytes)) [
          | inr finished ↦
              last_run-Done run s c cursor s' c' (rw (finished, sweep) at e) (ground arith) inv
          | inl more ↦
              let here = page_protection l cursor page l.header_bytes in
              let span = min page (image_bytes - cursor) in
              let whole : cursor % page ≡ 0 = ground (arith, ltb→lt cursor image_bytes more) in
              let (next, counted, running, rest_ok, inv') =
                turn-Inv cursor here.0 run s (count_page c here.0 here.1) _ span s' c'
                  (rw (more, sweep) at e) (omega (arith, ltb→lt cursor image_bytes more)) inv
                  (λ j after before.
                    ap (λ t. (page_protection l t page l.header_bytes).0)
                      (page_start_lem page cursor j positive whole after (omega arith))) in
              sweep-Done fuel (cursor + span) (some running) next counted s' c' rest_ok
                (omega (arith, ltb→lt cursor image_bytes more))
                (next_aligned page cursor image_bytes whole (ltb→lt cursor image_bytes more)) inv'
        ]
