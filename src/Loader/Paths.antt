-- ===== src/Loader/Paths.antt =====
-- Lists of modules, the paths of the dependencies, and the states of the walk of pw_loader.c.
use ps5_homebrew_lab.Common.{
  ℕ, zero, suc, ◌<◌, ◌≡◌, ◌≢◌, ◌⊎◌, inl, inr, true, false, List, [], ◌∷◌, ◌++◌, length, get_or, set,
  arith, refl, ap, sym, ◌∙◌,
}
use ps5_homebrew_lab.Loader.{Edges, Visit, unvisited, active, done, Tour, mark}

-- An element of a list.
abbrev pub In : ℕ → List ℕ → Type 0
In x [] = false ≡ true
In x (y ∷ ys) = (x ≡ y) ⊎ In x ys

-- No element twice.
abbrev pub Distinct : List ℕ → Type 0
Distinct [] = true ≡ true
Distinct (x ∷ xs) = (In x xs → false ≡ true) × Distinct xs

-- v stands before a place where u stands.
pub record Earlier (v u : ℕ) (order : List ℕ) : Type 0 where
  pub front : List ℕ
  pub back : List ℕ
  pub split : order ≡ front ++ (u ∷ back)
  pub inside : In v front

abbrev pub edges_of : List Edges → ℕ → Edges
edges_of modules u = get_or modules u []

pub data Reaches (modules : List Edges) (a : ℕ) : ℕ → Type 0 where
  here : Reaches modules a a
  step : {b c : ℕ} → Reaches modules a b → In c (edges_of modules b) → Reaches modules a c

abbrev pub state : Tour → ℕ → Visit
state t i = get_or t.visit_state i unvisited

pub In-append_left : (x : ℕ) (xs ys : List ℕ) → In x xs → In x (xs ++ ys)
In-append_left x [] ys h = cc
In-append_left x (y ∷ xs) ys (inl e) = inl e
In-append_left x (y ∷ xs) ys (inr h) = inr (In-append_left x xs ys h)

pub In-append_last : (xs : List ℕ) (x : ℕ) → In x (xs ++ (x ∷ []))
In-append_last [] x = inl refl
In-append_last (y ∷ xs) x = inr (In-append_last xs x)

pub In-append : (x : ℕ) (xs : List ℕ) (y : ℕ) → In x (xs ++ (y ∷ [])) → In x xs ⊎ (x ≡ y)
In-append x [] y (inl e) = inr e
In-append x [] y (inr h) = cc
In-append x (z ∷ xs) y (inl e) = inl (inl e)
In-append x (z ∷ xs) y (inr h) = elim (In-append x xs y h) [ inl k ↦ inl (inr k) | inr e ↦ inr e ]

pub Distinct-append :
    (xs : List ℕ) (y : ℕ) → Distinct xs → (In y xs → false ≡ true) → Distinct (xs ++ (y ∷ []))
Distinct-append [] y d h = ((λ k. k), refl)
Distinct-append (x ∷ xs) y (apart, d) h = (
  (λ k. elim (In-append x xs y k) [ inl old ↦ apart old | inr e ↦ h (inl (sym e)) ]),
  Distinct-append xs y d (λ k. h (inr k)),
)

append_assoc :
    (xs : List ℕ) (u : ℕ) (ys : List ℕ) (z : ℕ)
    → (xs ++ (u ∷ ys)) ++ (z ∷ []) ≡ xs ++ (u ∷ (ys ++ (z ∷ [])))
append_assoc [] u ys z = refl
append_assoc (x ∷ xs) u ys z = ap (λ t. x ∷ t) (append_assoc xs u ys z)

pub Earlier-append :
    (v u z : ℕ) (order : List ℕ) → Earlier v u order → Earlier v u (order ++ (z ∷ []))
Earlier-append v u z order e = record {
  front = e.front;
  back = e.back ++ (z ∷ []);
  split = ap (λ t. t ++ (z ∷ [])) e.split ∙ append_assoc e.front u e.back z;
  inside = e.inside;
}

pub Earlier-last : (v u : ℕ) (order : List ℕ) → In v order → Earlier v u (order ++ (u ∷ []))
Earlier-last v u order h = record { front = order; back = []; split = refl; inside = h }

get_or-at :
    (vs : List Visit) (i : ℕ) (v : Visit) → i < length vs → get_or (set vs i v) i unvisited ≡ v
get_or-at [] i v h = elim h [ ]
get_or-at (x ∷ vs) zero v h = refl
get_or-at (x ∷ vs) (suc i) v h = get_or-at vs i v (omega arith)

get_or-apart :
    (vs : List Visit) (i j : ℕ) (v : Visit)
    → i ≢ j
    → get_or (set vs i v) j unvisited ≡ get_or vs j unvisited
get_or-apart [] i j v d = refl
get_or-apart (x ∷ vs) zero zero v d = absurd (d refl)
get_or-apart (x ∷ vs) zero (suc j) v d = refl
get_or-apart (x ∷ vs) (suc i) zero v d = refl
get_or-apart (x ∷ vs) (suc i) (suc j) v d = get_or-apart vs i j v (omega arith)

-- The states behind a mark.
pub state-mark :
    (t : Tour) (i : ℕ) (v : Visit) → i < length t.visit_state → state (mark t i v) i ≡ v
state-mark t i v h = get_or-at t.visit_state i v h

pub state-mark_other : (t : Tour) (i j : ℕ) (v : Visit) → i ≢ j → state (mark t i v) j ≡ state t j
state-mark_other t i j v d = get_or-apart t.visit_state i j v d

pub Visit-cases : (v : Visit) → (v ≡ unvisited) ⊎ (v ≡ active) ⊎ (v ≡ done)
Visit-cases unvisited = inl refl
Visit-cases active = inr (inl refl)
Visit-cases done = inr (inr refl)
