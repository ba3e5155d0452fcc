-- ===== src/Loader/Stack.antt =====
-- The walk of pw_loader.c from one state to a later one, and what holds between its calls.
use ps5_homebrew_lab.Common.{
  ℕ, zero, suc, ◌≤◌, ◌<◌, ◌≡◌, ◌≢◌, ◌⊎◌, inl, inr, List, [], ◌∷◌, ◌++◌, length, get_or, replicate,
  ok, >>=-eq-ok, arith, refl, sym, ◌∙◌,
}
use ps5_homebrew_lab.Loader.{Edges, unvisited, active, done, Tour, mark, visit_edges, visit}
use ps5_homebrew_lab.Loader.Paths.{In, Distinct, Earlier, edges_of, Reaches, state, Visit-cases}

-- What the walk has changed: a module that was visited keeps its state, and the others are left or done.
pub record Later (t t' : Tour) : Type 0 where
  pub kept : (i : ℕ) → state t i ≢ unvisited → state t' i ≡ state t i
  pub moved : (i : ℕ) → (state t' i ≡ state t i) ⊎ (state t' i ≡ done)

pub Later-refl : (t : Tour) → Later t t
Later-refl t = record { kept = λ i h. refl; moved = λ i. inl refl }

pub Later-trans : (t u w : Tour) → Later t u → Later u w → Later t w
Later-trans t u w a b = record {
  kept = λ i h. b.kept i (λ e. h (sym (a.kept i h) ∙ e)) ∙ a.kept i h;
  moved = λ i. elim (b.moved i) [
    | inr last ↦ inr last
    | inl same ↦ elim (a.moved i) [ inl old ↦ inl (same ∙ old) | inr last ↦ inr (same ∙ last) ]
  ];
}

pub Later-active : (t u : Tour) (a : ℕ) → Later t u → state u a ≡ active → state t a ≡ active
Later-active t u a l e = elim (l.moved a) [
  | inl same ↦ sym same ∙ e
  | inr last ↦ ground (arith, sym last ∙ e)
]

pub Later-seen : (t u : Tour) (i : ℕ) → Later t u → state t i ≢ unvisited → state u i ≢ unvisited
Later-seen t u i l h gone = h (sym (l.kept i h) ∙ gone)

pub state_cases :
    (t : Tour) (i : ℕ) → (state t i ≡ unvisited) ⊎ (state t i ≡ active) ⊎ (state t i ≡ done)
state_cases t i = Visit-cases (state t i)

pub no_state : (i n : ℕ) → get_or (replicate n unvisited) i unvisited ≡ unvisited
no_state zero zero = refl
no_state zero (suc n) = refl
no_state (suc i) zero = refl
no_state (suc i) (suc n) = no_state i n

pub ok_same : (t t' : Tour) → ok t ≡ ok t' → t ≡ t'
ok_same t t' e = cc

-- A module that is left.
abbrev pub left_of : ℕ → Tour → Tour
left_of x t = record (mark t x done) { order = t.order ++ (x ∷ []) }

module _ (modules : List Edges) (few : length modules ≤ 32) where
  -- The order holds the modules that are done, each once, behind its dependencies or on a cycle with them.
  pub record Good (t : Tour) : Type 0 where
    pub sized : length t.visit_state ≡ 32
    pub distinct : Distinct t.order
    pub listed : (i : ℕ) → In i t.order → state t i ≡ done
    pub visited : (i : ℕ) → state t i ≡ done → In i t.order
    pub inside : (i : ℕ) → In i t.order → i < length modules
    pub closed : (u v : ℕ) → In u t.order → In v (edges_of modules u) → state t v ≢ unvisited
    pub placed :
        (u v : ℕ)
        → In u t.order
        → In v (edges_of modules u)
        → Earlier v u t.order ⊎ Reaches modules v u

  -- The modules on the stack reach the one that is visited next.
  abbrev pub OnStack : Tour → ℕ → Type 0
  OnStack t x = (a : ℕ) → state t a ≡ active → Reaches modules a x

  abbrev pub Post : Tour → ℕ → Tour → Type 0
  Post t x t' = Good t' × Later t t' × (state t' x ≢ unvisited)

  abbrev pub Visits : ℕ → Type 0
  Visits fuel =
      (x : ℕ) (t t' : Tour) → Good t → OnStack t x → visit modules fuel x t ≡ ok t' → Post t x t'

  pub visit_edges-Good :
      (fuel : ℕ) (walks : Visits fuel) (xs : Edges) (t t' : Tour)
      → Good t
      → ((v : ℕ) → In v xs → OnStack t v)
      → visit_edges (visit modules fuel) xs t ≡ ok t'
      → Good t' × Later t t' × ((v : ℕ) → In v xs → state t' v ≢ unvisited)
  visit_edges-Good fuel walks [] t t' g on e =
      let same : t ≡ t' = cc in rw (← same) (g, Later-refl t, λ v h. cc)
  visit_edges-Good fuel walks (x ∷ xs) t t' g on e =
      let (u, first, rest) = >>=-eq-ok (visit modules fuel x t) _ e in
      let (g₁, l₁, seen) = walks x t u g (on x (inl refl)) first in
      let (g₂, l₂, others) =
        visit_edges-Good fuel walks xs u t' g₁
          (λ v h a act. on v (inr h) a (Later-active t u a l₁ act)) rest in
      (
        g₂,
        Later-trans t u t' l₁ l₂,
        λ v h. elim h [
          | inl same ↦ rw same (Later-seen u t' x l₂ seen)
          | inr later ↦ others v later
        ],
      )
