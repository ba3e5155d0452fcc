-- ===== src/Loader/Counts.antt =====
-- How many modules the walk of pw_loader.c has still to visit, and to finish.
use ps5_homebrew_lab.Common.{
  ℕ, zero, suc, ◌+◌, ◌≤◌, ◌<◌, ◌≡◌, List, [], ◌∷◌, length, get_or, set, arith,
}
use ps5_homebrew_lab.Loader.{Visit, unvisited, active, done}

abbrev pub fresh_weight : Visit → ℕ
fresh_weight unvisited = 1
fresh_weight active = 0
fresh_weight done = 0

abbrev pub open_weight : Visit → ℕ
open_weight unvisited = 1
open_weight active = 1
open_weight done = 0

-- The sum of the weights of the states.
abbrev pub weigh : (Visit → ℕ) → List Visit → ℕ
weigh w [] = 0
weigh w (v ∷ vs) = w v + weigh w vs

pub weigh-set :
    (w : Visit → ℕ) (vs : List Visit) (i : ℕ) (v : Visit)
    → i < length vs
    → weigh w (set vs i v) + w (get_or vs i unvisited) ≡ weigh w vs + w v
weigh-set w [] i v h = elim h [ ]
weigh-set w (x ∷ vs) zero v h = omega arith
weigh-set w (x ∷ vs) (suc i) v h = omega (arith, weigh-set w vs i v (omega arith))

-- One state weighs no more than all.
pub weigh-at :
    (w : Visit → ℕ) (vs : List Visit) (i : ℕ)
    → i < length vs
    → w (get_or vs i unvisited) ≤ weigh w vs
weigh-at w [] i h = elim h [ ]
weigh-at w (x ∷ vs) zero h = omega arith
weigh-at w (x ∷ vs) (suc i) h = omega (arith, weigh-at w vs i (omega arith))

pub weigh_le :
    (w : Visit → ℕ) (vs us : List Visit)
    → length us ≡ length vs
    → ((i : ℕ) → w (get_or us i unvisited) ≤ w (get_or vs i unvisited))
    → weigh w us ≤ weigh w vs
weigh_le w [] [] e h = omega arith
weigh_le w [] (u ∷ us) e h = ground arith
weigh_le w (v ∷ vs) [] e h = ground arith
weigh_le w (v ∷ vs) (u ∷ us) e h =
    omega (arith, h 0, weigh_le w vs us (omega (arith, e)) (λ i. h (suc i)))
