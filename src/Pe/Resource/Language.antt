-- ===== src/Pe/Resource/Language.antt =====
-- The policy of the loop of entry in pe_resource.c at the level of the languages.
use ps5_homebrew_lab.Common.{
  ℕ, ◌+◌, ◌-◌, ◌^◌, ◌≤◌, ◌<◌, ◌≡◌, ◌≢◌, ◌⊎◌, inl, inr, true, ◌==◌, ok, >>=-eq-ok, arith, refl,
  Bool-cases,
}
use native.Mathlib.Decide.{ℕ_discrete}
use ps5_homebrew_lab.Pe.Image.{Image}
use ps5_homebrew_lab.Pe.Resource.{score, scan_entries, no_choice, read_table, entry}
use ps5_homebrew_lab.Pe.Resource.Scan.{
  number, target_of, same_pair, scan_entries-Best, no_choice-Best,
}

-- The entry that is selected has the least score, and the least number among those with this score.
entry-score :
    (im : Image) (table id target key : ℕ)
    → entry im table id true ≡ ok (target, key)
    → (names : ℕ) × (count : ℕ) × (at : ℕ) × (read_table im table ≡ ok (names, count, at))
      × ((j : ℕ) × (names ≤ j)
          × (j < count)
          × (key ≡ number im id names at j)
          × (target ≡ target_of im id names at j))
      × ((k : ℕ)
          → names ≤ k
          → k < count
          → (score id true key ≤ score id true (number im id names at k))
            × (score id true (number im id names at k) ≡ score id true key
                → key ≤ number im id names at k))
unfolding entry
entry-score im table id target key e =
    let ((names, count, at), tabled, e₁) = >>=-eq-ok (read_table im table) _ e in
    let (c, scanned, e₂) = >>=-eq-ok (scan_entries im id true names at 0 count no_choice) _ e₁ in
    let b =
      scan_entries-Best im id names at 0 count no_choice c scanned
        (no_choice-Best im id names at) in
    elim (Bool-cases (c.best == 2 ^ 32 - 1)) [
      | inl nothing ↦ let e₃ = rw nothing at e₂ in cc
      | inr some_entry ↦
          let e₃ = rw some_entry at e₂ in
          let (first, second) = same_pair e₃ in
          elim b.found [
            | inl none_yet ↦ ground (arith, none_yet.1)
            | inr (j, low, high, keyed, valued, best) ↦
                let sum : 0 + count ≡ count = omega arith in
                let scored : score id true key ≡ c.best = rw (← second, keyed, best) refl in
                (
                  names,
                  count,
                  at,
                  tabled,
                  (j, low, omega (arith, high), rw (← second) keyed, rw (← first) valued),
                  λ k from before.
                      let (less, ties, last) = b.least k from (omega (arith, before)) in
                      (
                        omega (arith, less, scored),
                        λ same. rw (← second) (ties (omega (arith, same, scored))),
                      ),
                )
          ]
    ]

-- The policy on the numbers, from that on the scores.
preferred :
    (id key : ℕ) (P : ℕ → Type 0) (n : ℕ → ℕ)
    → ((k : ℕ)
        → P k
        → (score id true key ≤ score id true (n k))
          × (score id true (n k) ≡ score id true key → key ≤ n k))
    → (key ≡ id)
      ⊎ ((key ≡ 0) × ((k : ℕ) → P k → n k ≢ id))
      ⊎ ((k : ℕ) → P k → (n k ≢ id) × (n k ≢ 0) × (key ≤ n k))
preferred id key P n least = elim (ℕ_discrete key id) [
  | yes wanted ↦ inl wanted
  | no other ↦ elim (ℕ_discrete key 0) [
    | yes neutral ↦ inr (inl (neutral, λ k here. λ same. ground (arith, least k here)))
    | no lowest ↦ inr (
        inr (λ k here. (
          λ same. ground (arith, least k here),
          λ same. ground (arith, least k here),
          ground (arith, least k here),
        )))
  ]
]

-- The entry that is selected for a language is a numbered one of the table, with what it leads to. Its number is the
-- wanted one; or it is 0, the neutral language, and no numbered entry is the wanted one; or no numbered entry is the
-- wanted or the neutral one, and it is the lowest.
pub entry_preferred :
    (im : Image) (table id target key : ℕ)
    → entry im table id true ≡ ok (target, key)
    → (names : ℕ) × (count : ℕ) × (at : ℕ) × (read_table im table ≡ ok (names, count, at))
      × ((j : ℕ) × (names ≤ j)
          × (j < count)
          × (key ≡ number im id names at j)
          × (target ≡ target_of im id names at j))
      × ((key ≡ id)
          ⊎ ((key ≡ 0) × ((k : ℕ) → (names ≤ k) × (k < count) → number im id names at k ≢ id))
          ⊎ ((k : ℕ)
              → (names ≤ k) × (k < count)
              → (number im id names at k ≢ id)
                × (number im id names at k ≢ 0)
                × (key ≤ number im id names at k)))
entry_preferred im table id target key e =
    let (names, count, at, tabled, chosen, least) = entry-score im table id target key e in
    (
      names,
      count,
      at,
      tabled,
      chosen,
      preferred id key (λ k. (names ≤ k) × (k < count)) (number im id names at)
          (λ k here. least k here.0 here.1),
    )
