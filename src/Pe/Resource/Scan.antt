-- ===== src/Pe/Resource/Scan.antt =====
-- The loop of entry in pe_resource.c at the level of the languages: what it knows of the entries behind it.
use ps5_homebrew_lab.Common.{
  ℕ, zero, suc, ◌+◌, ◌*◌, ◌-◌, ◌^◌, ◌≤◌, ◌<◌, ◌≡◌, ◌⊎◌, inl, inr, true, false, ◌||◌, ◌&&◌, ltb, leb,
  Outcome, ok, >>=-eq-ok, arith, refl, Bool-cases, below_or, ltb→lt,
}
use ps5_homebrew_lab.Pe.Bytes.{Bytes, u32, read_u32}
use ps5_homebrew_lab.Pe.Image.{Image}
use ps5_homebrew_lab.Pe.Resource.{Choice, score, choose, scan_entries, no_choice, is_high}

read_u32-value : (b : Bytes) (o v : ℕ) → read_u32 b o ≡ ok v → v ≡ u32 b o
unfolding read_u32
read_u32-value b o v e = ground arith

not_below : (a b : ℕ) → ltb a b ≡ false → b ≤ a
not_below a b e = ground arith

pub same_pair :
    {a b x y : ℕ} → ◌≡◌ {A = Outcome (ℕ × ℕ)} (ok (a, b)) (ok (x, y)) → (a ≡ x) × (b ≡ y)
same_pair e = (cc, cc)

module _ (im : Image) (id names at : ℕ) where
  -- The number of an entry and what it leads to.
  abbrev pub number : ℕ → ℕ
  number j = u32 im.bytes (at + j * 8)

  abbrev pub target_of : ℕ → ℕ
  target_of j = u32 im.bytes (at + j * 8 + 4)

  abbrev pub Chosen : ℕ → Choice → Type 0
  Chosen i c =
      (j : ℕ) × (names ≤ j)
      × (j < i)
      × (c.key ≡ number j)
      × (c.value ≡ target_of j)
      × (c.best ≡ score id true (number j))

  -- What the loop knows of the numbered entries before i.
  pub record Best (i : ℕ) (c : Choice) : Type 0 where
    pub found : ((i ≤ names) × (c.best ≡ 2 ^ 32 - 1)) ⊎ Chosen i c
    pub least :
        (j : ℕ)
        → names ≤ j
        → j < i
        → (c.best ≤ score id true (number j))
          × (score id true (number j) ≡ c.best → c.key ≤ number j)
          × (number j ≤ c.last)

  score_small : (n : ℕ) → score id true n < 2 ^ 32 - 1
  score_small n = ground arith

  abbrev Step : ℕ → ℕ → Choice → Choice → Type 0
  Step n offset c next =
      ((score id true n < c.best)
        × (next ≡ record { best = score id true n; value = offset; key = n; last = n }))
      ⊎ ((c.best ≤ score id true n) × (next ≡ record c { last = n }))

  -- A numbered entry, which is above the last one.
  choose_later :
      (i n offset : ℕ) (c next : Choice)
      → names ≤ i
      → choose id true names i n offset c ≡ ok next
      → (names < i → c.last < n) × Step n offset c next
  unfolding choose
  choose_later i n offset c next behind e =
      let place : ltb i names ≡ false = ground arith in
      let e₁ = rw place at e in
      elim (Bool-cases (is_high n || (ltb names i && leb n c.last))) [
        | inl bad ↦ let e₂ = rw bad at e₁ in cc
        | inr good ↦
            let e₂ = rw good at e₁ in
            let above : names < i → c.last < n = λ h. ground arith in
            elim (Bool-cases (ltb (score id true n) c.best)) [
              | inl better ↦
                  let e₃ = rw better at e₂ in
                  (above, inl (ltb→lt (score id true n) c.best better, cc))
              | inr worse ↦
                  let e₃ = rw worse at e₂ in
                  (above, inr (not_below (score id true n) c.best worse, cc))
            ]
      ]

  -- The entry that is chosen lies before the next one.
  chosen_below :
      (i : ℕ) (c : Choice)
      → Best i c
      → (names < i → c.last < number i)
      → c.best < 2 ^ 32 - 1
      → c.key ≤ number i
  chosen_below i c b after small = elim b.found [
    | inl none_yet ↦ absurd (omega (arith, none_yet.1))
    | inr (j, low, high, key, value, best) ↦
        let (less, ties, last) = b.least j low high in let up = after (omega arith) in omega arith
  ]

  choose-Best :
      (i offset : ℕ) (c next : Choice)
      → choose id true names i (number i) offset c ≡ ok next
      → offset ≡ target_of i
      → Best i c
      → Best (i + 1) next
  unfolding choose
  choose-Best i offset c next e value b = elim (Bool-cases (ltb i names)) [
    | inl early ↦
        let same : next ≡ c = ground arith in
        let before : i + 1 ≤ names = ground arith in
        rw same (record {
          found = elim b.found [
            | inl none_yet ↦ inl (before, none_yet.1)
            | inr (j, low, high, key, value, best) ↦ absurd (omega arith)
          ];
          least = λ j low high. absurd (omega arith);
        })
    | inr later ↦
        let (after, step) = choose_later i (number i) offset c next (ground arith) e in
        elim step [
          | inl (better, shape) ↦ rw shape (record {
            found = inr (i, ground arith, omega arith, refl, value, refl);
            least = λ j low high. elim (below_or j i) [
              | inl old ↦
                  let (less, ties, last) = b.least j low old in
                  let up = after (omega arith) in
                  (omega arith, (λ same. absurd (omega arith)), omega arith)
              | inr new ↦
                  let here : j ≡ i = omega arith in
                  rw here (omega arith, (λ same. omega arith), omega arith)
            ];
          })
          | inr (worse, shape) ↦ rw shape (record {
            found = elim b.found [
              | inl none_yet ↦ absurd (omega (arith, none_yet.1, score_small (number i)))
              | inr (j, low, high, key, value, best) ↦ inr (j, low, omega arith, key, value, best)
            ];
            least = λ j low high. elim (below_or j i) [
              | inl old ↦
                  let (less, ties, last) = b.least j low old in
                  let up = after (omega arith) in (less, ties, omega arith)
              | inr new ↦
                  let here : j ≡ i = omega arith in
                  rw here (
                    worse,
                    (λ same.
                        chosen_below i c b after (omega (arith, same, score_small (number i)))),
                    omega arith,
                  )
            ];
          })
        ]
  ]

  pub scan_entries-Best :
      (i left : ℕ) (c out : Choice)
      → scan_entries im id true names at i left c ≡ ok out
      → Best i c
      → Best (i + left) out
  unfolding scan_entries
  scan_entries-Best i zero c out e b =
      let same : c ≡ out = cc in let all : i + 0 ≡ i = omega arith in rw (all, ← same) b
  scan_entries-Best i (suc left) c out e b =
      let (name, read, e₁) = >>=-eq-ok (read_u32 im.bytes (at + i * 8)) _ e in
      let (offset, read₂, e₂) = >>=-eq-ok (read_u32 im.bytes (at + i * 8 + 4)) _ e₁ in
      let (next, chosen, e₃) = >>=-eq-ok (choose id true names i name offset c) _ e₂ in
      let here = read_u32-value im.bytes (at + i * 8) name read in
      let there = read_u32-value im.bytes (at + i * 8 + 4) offset read₂ in
      let sum : i + suc left ≡ i + 1 + left = omega arith in
      rw sum (
        scan_entries-Best (i + 1) left next out e₃
          (choose-Best i offset c next (rw here at chosen) there b))

  pub no_choice-Best : Best 0 no_choice
  no_choice-Best = record {
    found = inl (omega arith, refl);
    least = λ j low high. absurd (omega arith);
  }
