-- ===== src/Map/Protect/Union.antt =====
-- What page_protection computes: the access modes of the headers and of the sections over a page.
use ps5_homebrew_lab.Common.{
  ℕ, zero, suc, ◌+◌, ◌%◌, ◌^◌, ◌≤◌, ◌<◌, ◌≡◌, ◌⊎◌, ◌↔◌, inl, inr, some, List, [], ◌∷◌, get_elem?,
  ltb, leb, bit_or, arith, refl, Bool-cases, ltb→lt, leb→le,
}
use ps5_homebrew_lab.Common.Digits.{digit, digit-bit_or, digit-le, digit-zero, digit-one}
use ps5_homebrew_lab.Pe.Layout.{Layout, LayoutSection}
use ps5_homebrew_lab.Map.Protect.{contribute, page_protection}

-- A section of the list that has a byte in the span from `start` to `end` and the mode of the digit k.
abbrev pub Granted : ℕ → ℕ → ℕ → List LayoutSection → Type 0
Granted k start end ps =
    (i : ℕ) × (p : LayoutSection) × (get_elem? ps i ≡ some p)
    × (p.rva < end)
    × (start < p.rva + p.mapped_bytes)
    × (digit k p.protection ≡ 1)

-- The sections stand in the order of their addresses.
abbrev pub Sorted : List LayoutSection → Type 0
Sorted ps =
    (i j : ℕ) (p q : LayoutSection)
    → i < j
    → get_elem? ps i ≡ some p
    → get_elem? ps j ≡ some q
    → p.rva ≤ q.rva

later :
    (k start end : ℕ) (p : LayoutSection) (ps : List LayoutSection)
    → Granted k start end ps
    → Granted k start end (p ∷ ps)
later k start end p ps (i, q, at, low, high, mode) = (suc i, q, at, low, high, mode)

either_digit : (k x y : ℕ) → (digit k (bit_or x y) ≡ 1) ↔ ((digit k x ≡ 1) ⊎ (digit k y ≡ 1))
either_digit k x y = (
  λ h. omega (arith, digit-bit_or k x y, digit-le k x, digit-le k y),
  λ h. omega (arith, digit-bit_or k x y, digit-le k x, digit-le k y),
)

module _ (k start end : ℕ) where
  -- Behind a section that starts behind the span, the list has none over it.
  none_behind :
      (p : LayoutSection) (ps : List LayoutSection)
      → Sorted (p ∷ ps)
      → end ≤ p.rva
      → Granted k start end (p ∷ ps)
      → zero ≡ 1
  none_behind p ps sorted behind (zero, q, at, low, high, mode) =
      let same : p ≡ q = cc in let at_p = rw (← same) at low in omega arith
  none_behind p ps sorted behind (suc i, q, at, low, high, mode) =
      omega (arith, sorted 0 (suc i) p q (omega arith) refl at)

  pub digit-contribute :
      (ps : List LayoutSection) (protection contributors : ℕ)
      → Sorted ps
      → (digit k (contribute start end ps (protection, contributors)).0 ≡ 1)
        ↔ ((digit k protection ≡ 1) ⊎ Granted k start end ps)
  unfolding contribute
  digit-contribute [] protection contributors sorted =
      (inl, λ h. elim h [ inl own ↦ own | inr (i, p, at, low, high, mode) ↦ absurd (cc) ])
  digit-contribute (p ∷ ps) protection contributors sorted =
      let tail : Sorted ps = λ i j a b h. sorted (suc i) (suc j) a b (omega arith) in
      elim (Bool-cases (leb end p.rva)) [
        | inl behind ↦ rw behind (
          inl,
          λ h. elim h [
            | inl own ↦ own
            | inr g ↦ absurd (omega (arith, none_behind p ps sorted (leb→le end p.rva behind) g))
          ],
        )
        | inr before ↦ elim (Bool-cases (leb (p.rva + p.mapped_bytes) start)) [
          | inl ended ↦
              let (to, from) = digit-contribute ps protection contributors tail in
              rw (before, ended)
                (
                  λ h. elim (to h) [ inl own ↦ inl own | inr g ↦ inr (later k start end p ps g) ],
                  λ h. elim h [
                    | inl own ↦ from (inl own)
                    | inr (zero, q, at, low, high, mode) ↦
                        let same : p ≡ q = cc in
                        let high_p = rw (← same) at high in
                        absurd (omega (arith, leb→le (p.rva + p.mapped_bytes) start ended))
                    | inr (suc i, q, at, low, high, mode) ↦ from (inr (i, q, at, low, high, mode))
                  ],
                )
          | inr over ↦
              let (to, from) =
                digit-contribute ps (bit_or protection p.protection) ((contributors + 1) % 2 ^ 32)
                  tail in
              let (split, join) = either_digit k protection p.protection in
              rw (before, over)
                (
                  λ h. elim (to h) [
                    | inl own ↦ elim (split own) [
                      | inl old ↦ inl old
                      | inr new ↦ inr (0, p, refl, ground arith, ground arith, new)
                    ]
                    | inr g ↦ inr (later k start end p ps g)
                  ],
                  λ h. elim h [
                    | inl own ↦ from (inl (join (inl own)))
                    | inr (zero, q, at, low, high, mode) ↦
                        let same : p ≡ q = cc in from (inl (join (inr (rw (← same) at mode))))
                    | inr (suc i, q, at, low, high, mode) ↦ from (inr (i, q, at, low, high, mode))
                  ],
                )
        ]
      ]

-- The mode of the digit k, of read, write and execute in this order, is due to the page at `start`: the headers
-- lie over it, which are read only, or a section with that mode does.
abbrev pub Due : Layout → ℕ → ℕ → ℕ → Type 0
Due l page start k =
    ((start < l.header_bytes) × (k ≡ 0)) ⊎ Granted k start (start + page) l.sections

pub digit-page_protection :
    (l : Layout) (page start k : ℕ)
    → Sorted l.sections
    → (digit k (page_protection l start page l.header_bytes).0 ≡ 1) ↔ Due l page start k
unfolding page_protection
digit-page_protection l page start k sorted = elim (Bool-cases (ltb start l.header_bytes)) [
  | inl inside ↦
      let (to, from) = digit-contribute k start (start + page) l.sections 1 1 sorted in
      rw inside (
        λ h. elim (to h) [
          | inl own ↦ inl (ltb→lt start l.header_bytes inside, (digit-one k).0 own)
          | inr g ↦ inr g
        ],
        λ h. elim h [ inl own ↦ from (inl ((digit-one k).1 own.1)) | inr g ↦ from (inr g) ],
      )
  | inr outside ↦
      let (to, from) = digit-contribute k start (start + page) l.sections 0 0 sorted in
      rw outside (
        λ h. elim (to h) [ inl own ↦ absurd (omega (arith, digit-zero k)) | inr g ↦ inr g ],
        λ h. elim h [ inl own ↦ absurd (ground arith) | inr g ↦ from (inr g) ],
      )
]
