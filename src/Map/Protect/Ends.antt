-- ===== src/Map/Protect/Ends.antt =====
-- pw_map_finalize_protections ends with success where every call of the backend does, and then every
-- byte of the image has the union of the protections over its page.
use ps5_homebrew_lab.Common.{
  ℕ, zero, suc, ◌+◌, ◌-◌, ◌%◌, ◌≤◌, ◌<◌, ◌≡◌, inl, inr, true, false, Option, none, some, ltb, ◌==◌,
  Outcome, ok, err, fault, arith, refl, ap, Bool-cases, min, ltb→lt, ◌≢◌, ◌↔◌,
}
use native.Mathlib.Nat.{zero-mod}
use ps5_homebrew_lab.Common.Digits.{digit}
use ps5_homebrew_lab.Pe.Layout.{Layout, has, plan}
use ps5_homebrew_lab.Pe.Layout.Laws.{plan_disjoint}
use ps5_homebrew_lab.Map.{
  Region, Backend, Mapped, Protection, no_protection, backend_valid, cap_protect,
}
use ps5_homebrew_lab.Map.Protect.{
  page_protection, count_page, Sweep, called, resume, turn, last_run, sweep, swept, finalize,
}
use ps5_homebrew_lab.Pe.Image.{Image, power_of_two}
use ps5_homebrew_lab.Pe.Image.Shape.{IsWellFormed}
use ps5_homebrew_lab.Map.Protect.Union.{Sorted, Due, digit-page_protection}
use ps5_homebrew_lab.Map.Protect.Laws.{Protects, sweep-Done}

-- A backend whose calls succeed ends the sweep, with enough fuel.
module _ {S : Type 0} (protect : S → ℕ → ℕ → ℕ → S × Outcome (Unit {0})) where
  abbrev pub Answers : Type 0
  Answers = (s : S) (start bytes p : ℕ) → (protect s start bytes p).1 ≡ ok tt

  abbrev Succeeds : Sweep S → Type 0
  Succeeds w = w.2 ≡ ok tt

  called-Succeeds :
      (c : Protection) (r : S × Outcome (Unit {0})) → r.1 ≡ ok tt → Succeeds (called c r)
  unfolding called
  called-Succeeds c (s, ok tt) e = refl
  called-Succeeds c (s, err code) e = cc
  called-Succeeds c (s, fault) e = cc

  resume-Succeeds :
      (w : Sweep S) (rest : S → Protection → Sweep S)
      → Succeeds w
      → ((s : S) (c : Protection) → Succeeds (rest s c))
      → Succeeds (resume w rest)
  resume-Succeeds (s, c, ok tt) rest e h = h s c
  resume-Succeeds (s, c, err code) rest e h = cc
  resume-Succeeds (s, c, fault) rest e h = cc

  module _ (answers : Answers) (l : Layout) (page image_bytes : ℕ) (positive : 0 < page) where
    last_run-Succeeds :
        (run : Option (ℕ × ℕ)) (s : S) (c : Protection)
        → Succeeds (last_run protect l page image_bytes run s c)
    unfolding last_run
    last_run-Succeeds none s c = refl
    last_run-Succeeds (some (start, p)) s c =
        called-Succeeds c (protect s start (image_bytes - start) p)
          (answers s start (image_bytes - start) p)

    turn-Succeeds :
        (cursor p : ℕ) (run : Option (ℕ × ℕ)) (s : S) (c : Protection)
        (rest : S → Protection → ℕ × ℕ → Sweep S)
        → ((s : S) (c : Protection) (r : ℕ × ℕ) → Succeeds (rest s c r))
        → Succeeds (turn protect l page image_bytes cursor p run s c rest)
    unfolding turn
    turn-Succeeds cursor p none s c rest h = h s c (cursor, p)
    turn-Succeeds cursor p (some (start, running)) s c rest h = elim (Bool-cases (p == running)) [
      | inl same ↦ rw same (h s c (start, running))
      | inr other ↦ rw other (
          resume-Succeeds (called c (protect s start (cursor - start) running)) _
            (called-Succeeds c (protect s start (cursor - start) running)
              (answers s start (cursor - start) running))
            (λ next counted. h next counted (cursor, p)))
    ]

    pub sweep-Succeeds :
        (fuel cursor : ℕ) (run : Option (ℕ × ℕ)) (s : S) (c : Protection)
        → image_bytes ≤ cursor + fuel
        → Succeeds (sweep protect l page image_bytes fuel cursor run s c)
    unfolding sweep
    sweep-Succeeds zero cursor run s c enough =
        let finished : ltb cursor image_bytes ≡ false = ground arith in
        rw finished (last_run-Succeeds run s c)
    sweep-Succeeds (suc fuel) cursor run s c enough = elim (Bool-cases (ltb cursor image_bytes)) [
      | inr finished ↦ rw (finished, sweep) (last_run-Succeeds run s c)
      | inl more ↦
          let here = page_protection l cursor page l.header_bytes in
          rw (more, sweep)
            (turn-Succeeds cursor here.0 run s (count_page c here.0 here.1) _
              (λ next counted running.
                sweep-Succeeds fuel (cursor + min page (image_bytes - cursor)) (some running) next
                  counted (omega (arith, ltb→lt cursor image_bytes more))))
    ]

valid_page : (b : Backend) → backend_valid b ≡ true → 0 < b.page_bytes
unfolding backend_valid power_of_two
valid_page b e = ground arith

swept_ok :
    {S : Type 0} (m : Mapped) (w : Sweep S)
    → w.2 ≡ ok tt
    → swept m w ≡ (w.0, record m { protection = w.1; protections_applied = true }, ok tt)
swept_ok m (s, c, ok tt) e = refl
swept_ok m (s, c, err code) e = cc
swept_ok m (s, c, fault) e = cc

plan-Sorted : (im : Image) (l : Layout) → IsWellFormed im → plan im ≡ ok l → Sorted l.sections
plan-Sorted im l w planned i j p q before at_i at_j =
    omega (arith, plan_disjoint im l i j p q w planned before at_i at_j)

-- The layout of a well-formed image, a valid backend that can protect, whose calls succeed and protect their spans,
-- and a mapping whose protections are not applied yet: the call succeeds, marks the mapping, and every byte of
-- the image is then protected by the union of what lies over its page. Digit k of its protection, of read, write
-- and execute in this order, is set exactly if the page has headers and k is read, or the page meets a section
-- that sets k.
pub finalize_protected :
    (b : Backend) (protection_at : b.State → ℕ → ℕ)
    (protect : b.State → Region → ℕ → ℕ → ℕ → b.State × Outcome (Unit {0})) (s : b.State)
    (m : Mapped) (im : Image) (l : Layout)
    → IsWellFormed im
    → plan im ≡ ok l
    → backend_valid b ≡ true
    → has b.capabilities cap_protect ≡ true
    → b.protect ≡ some protect
    → Protects protection_at (λ t start bytes p. protect t m.region start bytes p)
    → Answers (λ t start bytes p. protect t m.region start bytes p)
    → m.region.write_base ≢ 0
    → m.protections_applied ≡ false
    → (s' : b.State) × (m' : Mapped) × (finalize b s m l ≡ (s', m', ok tt))
      × (m'.protections_applied ≡ true)
      × ((j k : ℕ)
          → j < m.image_bytes
          → (digit k (protection_at s' j) ≡ 1) ↔ Due l b.page_bytes (j - j % b.page_bytes) k)
unfolding finalize
finalize_protected b protection_at protect s m im l formed planned valid can present law answers
      mapped fresh =
    let positive = valid_page b valid in
    let call = λ (t : b.State) (start bytes p : ℕ). protect t m.region start bytes p in
    let w = sweep call l b.page_bytes m.image_bytes m.image_bytes 0 none s no_protection in
    let done =
      sweep-Succeeds call answers l b.page_bytes m.image_bytes positive m.image_bytes 0 none s
        no_protection (omega arith) in
    let standing : (m.region.write_base == 0) ≡ false = ground arith in
    let pages =
      sweep-Done protection_at call law l b.page_bytes m.image_bytes positive m.image_bytes 0 none s
        no_protection w.0 w.1 (ap (λ o. (w.0, w.1, o)) done) (omega arith)
        (inl (zero-mod b.page_bytes)) refl in
    (
      w.0,
      record m { protection = w.1; protections_applied = true },
      rw (valid, can, present, standing, fresh) (swept_ok m w done),
      refl,
      λ j k inside. rw (pages j inside) (
          digit-page_protection l b.page_bytes (j - j % b.page_bytes) k
            (plan-Sorted im l formed planned)),
    )
