-- ===== src/BlockCache/Probe.antt =====
-- The walk over the slots, before and after one that was vacant is taken.
use ps5_homebrew_lab.Common.{
  ℕ, zero, suc, ◌+◌, ◌%◌, ◌≡◌, ◌≢◌, ◌⊎◌, true, false, none, some, List, [], ◌∷◌, get_elem?, set,
  arith, refl, sym, ◌∙◌, Bool-cases, inl, inr, Option-cases,
}
use ps5_homebrew_lab.BlockCache.{Entry, Slots, Walk, hit, vacant, outside, matches, walk}

pub get_elem?-set_self {ℓ} :
    {A : Type ℓ} (xs : List A) (k : ℕ) (x v : A)
    → get_elem? xs k ≡ some x
    → get_elem? (set xs k v) k ≡ some v
get_elem?-set_self [] k x v e = absurd (cc)
get_elem?-set_self (y ∷ ys) zero x v e = refl
get_elem?-set_self (y ∷ ys) (suc k) x v e = get_elem?-set_self ys k x v e

pub get_elem?-set_other {ℓ} :
    {A : Type ℓ} (xs : List A) (k j : ℕ) (v : A) → j ≢ k → get_elem? (set xs k v) j ≡ get_elem? xs j
get_elem?-set_other [] k j v h = refl
get_elem?-set_other (y ∷ ys) zero zero v h = absurd (h refl)
get_elem?-set_other (y ∷ ys) zero (suc j) v h = refl
get_elem?-set_other (y ∷ ys) (suc k) zero v h = refl
get_elem?-set_other (y ∷ ys) (suc k) (suc j) v h =
    get_elem?-set_other ys k j v (λ e. h (omega arith))

slot_cases :
    (entries : Slots) (slot : ℕ)
    → ((get_elem? entries slot ≡ none) ⊎ (get_elem? entries slot ≡ some none))
      ⊎ ((e : Entry) × (get_elem? entries slot ≡ some (some e)))
slot_cases entries slot = elim (Option-cases (get_elem? entries slot)) [
  | inl behind ↦ inl (inl behind)
  | inr (o, there) ↦ elim (Option-cases o) [
    | inl free ↦ inl (inr (rw free at there))
    | inr (e, taken) ↦ inr (e, rw taken at there)
  ]
]

-- One round, by what the slot holds.
module _ (entries : Slots) (capacity generation guest_pc slot probe left : ℕ) where
  abbrev round : Walk
  round = walk entries capacity generation guest_pc slot probe (suc left)

  round-behind : get_elem? entries slot ≡ none → round ≡ outside
  unfolding walk
  round-behind h = rw (walk, h) refl

  pub round-free : get_elem? entries slot ≡ some none → round ≡ vacant slot probe
  unfolding walk
  round-free h = rw (walk, h) refl

  round-here :
      (e : Entry)
      → get_elem? entries slot ≡ some (some e)
      → matches generation guest_pc e ≡ true
      → round ≡ hit slot probe
  unfolding walk
  round-here e h m = rw (walk, h, m) refl

  round-passed :
      (e : Entry)
      → get_elem? entries slot ≡ some (some e)
      → matches generation guest_pc e ≡ false
      → round ≡ walk entries capacity generation guest_pc ((slot + 1) % capacity) (probe + 1) left
  unfolding walk
  round-passed e h m = rw (walk, h, m) refl

module _ (entries : Slots) (capacity generation guest_pc : ℕ) where
  -- A walk ends at a vacant slot only where there is one.
  pub walk-vacant :
      (slot probe left k q : ℕ)
      → walk entries capacity generation guest_pc slot probe left ≡ vacant k q
      → get_elem? entries k ≡ some none
  unfolding walk
  walk-vacant slot probe zero k q e = absurd (cc)
  walk-vacant slot probe (suc left) k q e =
      ground (arith, walk-vacant ((slot + 1) % capacity) (probe + 1) left k q)

  -- A walk that hits stands at an entry of the address and of the generation.
  pub walk-hit :
      (slot probe left k q : ℕ)
      → walk entries capacity generation guest_pc slot probe left ≡ hit k q
      → (e : Entry) × (get_elem? entries k ≡ some (some e)) × (matches generation guest_pc e ≡ true)
  unfolding walk
  walk-hit slot probe zero k q e = absurd (cc)
  walk-hit slot probe (suc left) k q e = elim (slot_cases entries slot) [
    | inl (inl behind) ↦ absurd (
        let at =
          sym (round-behind entries capacity generation guest_pc slot probe left behind) ∙ e in
        cc)
    | inl (inr free) ↦ absurd (
        let at = sym (round-free entries capacity generation guest_pc slot probe left free) ∙ e in
        cc)
    | inr (x, taken) ↦ elim (Bool-cases (matches generation guest_pc x)) [
      | inl here ↦
          let at =
            sym (round-here entries capacity generation guest_pc slot probe left x taken here)
            ∙ e in
          let same : slot ≡ k = cc in (x, rw (← same) taken, here)
      | inr passed ↦ walk-hit ((slot + 1) % capacity) (probe + 1) left k q (
          sym (round-passed entries capacity generation guest_pc slot probe left x taken passed)
          ∙ e)
    ]
  ]

  module _ (k : ℕ) (v : Entry) (free : get_elem? entries k ≡ some none) where
    -- The slot that is taken for an address is where its walk ends from then on.
    pub walk-set_self :
        (slot probe left q : ℕ)
        → matches generation guest_pc v ≡ true
        → walk entries capacity generation guest_pc slot probe left ≡ vacant k q
        → walk (set entries k (some v)) capacity generation guest_pc slot probe left ≡ hit k q
    unfolding walk
    walk-set_self slot probe zero q m e = absurd (cc)
    walk-set_self slot probe (suc left) q m e = elim (slot_cases entries slot) [
      | inl (inl behind) ↦ absurd (
          let at =
            sym (round-behind entries capacity generation guest_pc slot probe left behind) ∙ e in
          cc)
      | inl (inr there) ↦
          let at =
            sym (round-free entries capacity generation guest_pc slot probe left there) ∙ e in
          let same : slot ≡ k = cc in
          round-here (set entries k (some v)) capacity generation guest_pc slot probe left v
            (rw same (get_elem?-set_self entries k none (some v) free)) m
          ∙ (let done : hit slot probe ≡ hit k q = cc in done)
      | inr (x, taken) ↦
          let apart : slot ≢ k =
            λ p. (let at : get_elem? entries k ≡ some (some x) = rw p at taken in cc) in
          elim (Bool-cases (matches generation guest_pc x)) [
            | inl here ↦ absurd (
                let at =
                  sym (round-here entries capacity generation guest_pc slot probe left x taken here)
                  ∙ e in
                cc)
            | inr passed ↦
                round-passed (set entries k (some v)) capacity generation guest_pc slot probe left x
                  (get_elem?-set_other entries k slot (some v) apart ∙ taken) passed
                ∙ (walk-set_self ((slot + 1) % capacity) (probe + 1) left q m (
                    sym (
                      round-passed entries capacity generation guest_pc slot probe left x taken
                        passed)
                    ∙ e))
          ]
    ]

    -- A walk that hits has not come past the slot.
    pub walk-set_other :
        (slot probe left j q : ℕ)
        → walk entries capacity generation guest_pc slot probe left ≡ hit j q
        → walk (set entries k (some v)) capacity generation guest_pc slot probe left ≡ hit j q
    unfolding walk
    walk-set_other slot probe zero j q e = absurd (cc)
    walk-set_other slot probe (suc left) j q e = elim (slot_cases entries slot) [
      | inl (inl behind) ↦ absurd (
          let at =
            sym (round-behind entries capacity generation guest_pc slot probe left behind) ∙ e in
          cc)
      | inl (inr there) ↦ absurd (
          let at =
            sym (round-free entries capacity generation guest_pc slot probe left there) ∙ e in
          cc)
      | inr (x, taken) ↦
          let apart : slot ≢ k =
            λ p. (let at : get_elem? entries k ≡ some (some x) = rw p at taken in cc) in
          elim (Bool-cases (matches generation guest_pc x)) [
            | inl here ↦
                let at =
                  sym (round-here entries capacity generation guest_pc slot probe left x taken here)
                  ∙ e in
                round-here (set entries k (some v)) capacity generation guest_pc slot probe left x
                  (get_elem?-set_other entries k slot (some v) apart ∙ taken) here
                ∙ at
            | inr passed ↦
                round-passed (set entries k (some v)) capacity generation guest_pc slot probe left x
                  (get_elem?-set_other entries k slot (some v) apart ∙ taken) passed
                ∙ (walk-set_other ((slot + 1) % capacity) (probe + 1) left j q (
                    sym (
                      round-passed entries capacity generation guest_pc slot probe left x taken
                        passed)
                    ∙ e))
          ]
    ]
