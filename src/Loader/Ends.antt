-- ===== src/Loader/Ends.antt =====
-- pw_loader_compute_order succeeds where every module is reached from the root.
use ps5_homebrew_lab.Common.{
  ℕ, zero, suc, ◌+◌, ◌%◌, ◌^◌, ◌≤◌, ◌<◌, ◌≡◌, ◌≢◌, inl, inr, true, false, List, [], ◌∷◌, ◌++◌,
  length, get_or, ◌==◌, ltb, leb, ok, arith, refl, sym, ◌∙◌, length-append, lt→ltb,
}
use ps5_homebrew_lab.Loader.{
  Edges, Visit, unvisited, active, done, Tour, mark, visit_edges, finish_visit, visit, no_tour,
  all_done, compute_order, loader_max_modules,
}
use ps5_homebrew_lab.Loader.Paths.{In, edges_of, Reaches, here, step, state}
use ps5_homebrew_lab.Loader.Counts.{fresh_weight, open_weight, weigh, weigh-set, weigh-at, weigh_le}
use ps5_homebrew_lab.Loader.Stack.{
  Later, Later-active, Good, OnStack, visit_edges-Good, state_cases, no_state,
}
use ps5_homebrew_lab.Loader.Enter.{entered-Good, entered-OnStack, still_active}
use ps5_homebrew_lab.Loader.Order.{visit-Visits, no_tour-Good, nothing_active}

-- A module is in the order or still to be finished.
abbrev IsCounted : Tour → Type 0
IsCounted t = length t.order + weigh open_weight t.visit_state ≡ 32

Later-weight :
    (t u : Tour)
    → Later t u
    → length u.visit_state ≡ length t.visit_state
    → weigh fresh_weight u.visit_state ≤ weigh fresh_weight t.visit_state
Later-weight t u l sized =
    weigh_le fresh_weight t.visit_state u.visit_state sized (λ i. elim (l.moved i) [
      | inl same ↦ rw same (omega arith)
      | inr last ↦ rw last (omega arith)
    ])

-- A round of the walk at a module that is not visited yet.
visit_fresh :
    (modules : List Edges) (fuel x : ℕ) (t t₂ t₃ : Tour)
    → ltb x (length modules) ≡ true
    → state t x ≡ unvisited
    → visit_edges (visit modules fuel) (edges_of modules x) (mark t x active) ≡ ok t₂
    → finish_visit x t₂ ≡ ok t₃
    → visit modules (suc fuel) x t ≡ ok t₃
unfolding visit
visit_fresh modules fuel x t t₂ t₃ test fresh walked finished =
    rw (visit, test, fresh, walked) finished

module _ (modules : List Edges) (few : length modules ≤ 32)
    (known : (u v : ℕ) → In v (edges_of modules u) → v < length modules) where
  -- A call with more fuel than there are modules left to visit returns a tour.
  abbrev Runs : ℕ → Type 0
  Runs fuel =
      (x : ℕ) (t : Tour)
      → Good modules few t
      → OnStack modules few t x
      → IsCounted t
      → x < length modules
      → weigh fresh_weight t.visit_state < fuel
      → (t' : Tour) × (visit modules fuel x t ≡ ok t') × IsCounted t'

  visit_edges-Runs :
      (fuel : ℕ) (runs : Runs fuel) (xs : Edges) (t : Tour)
      → Good modules few t
      → ((v : ℕ) → In v xs → OnStack modules few t v)
      → ((v : ℕ) → In v xs → v < length modules)
      → IsCounted t
      → weigh fresh_weight t.visit_state < fuel
      → (t' : Tour) × (visit_edges (visit modules fuel) xs t ≡ ok t') × IsCounted t'
  visit_edges-Runs fuel runs [] t g on inside counted enough = (t, refl, counted)
  visit_edges-Runs fuel runs (x ∷ xs) t g on inside counted enough =
      let (u, first, counted₁) =
        runs x t g (on x (inl refl)) counted (inside x (inl refl)) enough in
      let (g₁, l₁, seen) = visit-Visits modules few fuel x t u g (on x (inl refl)) first in
      let (w, rest, counted₂) =
        visit_edges-Runs fuel runs xs u g₁ (λ v h a act. on v (inr h) a (Later-active t u a l₁ act))
          (λ v h. inside v (inr h)) counted₁
          (omega (arith, Later-weight t u l₁ (g₁.sized ∙ sym g.sized))) in
      (w, rw first rest, counted₂)

  finish_visit-Runs :
      (x : ℕ) (t : Tour)
      → IsCounted t
      → state t x ≡ active
      → x < length t.visit_state
      → (t' : Tour) × (finish_visit x t ≡ ok t') × IsCounted t'
  unfolding finish_visit
  finish_visit-Runs x t counted act small =
      let weight : open_weight (state t x) ≡ 1 = rw act refl in
      let one = weigh-at open_weight t.visit_state x small in
      let next = weigh-set open_weight t.visit_state x done small in
      let room : leb 32 (length t.order) ≡ false = ground (arith, one, weight) in
      (
        record (mark t x done) { order = t.order ++ (x ∷ []) },
        rw room refl,
        omega (arith, next, weight, counted, length-append t.order (x ∷ [])),
      )

  visit-Runs : (fuel : ℕ) → Runs fuel
  unfolding visit
  visit-Runs zero x t g on counted inside enough = elim enough [ ]
  visit-Runs (suc fuel) x t g on counted inside enough =
      let test = lt→ltb x (length modules) inside in
      let small : x < length t.visit_state = omega (arith, g.sized, few) in
      elim (state_cases t x) [
        | inr (inr last) ↦ (t, rw (visit, test, last) refl, counted)
        | inr (inl act) ↦ (
          record t { cycle_edges = (t.cycle_edges + 1) % 2 ^ 32 },
          rw (visit, test, act) refl,
          counted,
        )
        | inl fresh ↦
            let entered = mark t x active in
            let weight : fresh_weight (state t x) ≡ 1 = rw fresh refl in
            let left = weigh-set fresh_weight t.visit_state x active small in
            let pending : open_weight (state t x) ≡ 1 = rw fresh refl in
            let held = weigh-set open_weight t.visit_state x active small in
            let g₁ = entered-Good modules few x t g on fresh inside in
            let on₁ = entered-OnStack modules few x t g on fresh inside in
            let (t₂, walked, counted₂) =
              visit_edges-Runs fuel (visit-Runs fuel) (edges_of modules x) entered g₁ on₁ (known x)
                (omega (arith, counted, pending, held)) (omega (arith, enough, weight, left)) in
            let (g₂, l, seen) =
              visit_edges-Good modules few fuel (visit-Visits modules few fuel) (edges_of modules x)
                entered t₂ g₁ on₁ walked in
            let (t₃, finished, counted₃) =
              finish_visit-Runs x t₂ counted₂
                (still_active modules few x t g on fresh inside t₂ g₂ l seen)
                (omega (arith, g₂.sized, few)) in
            (t₃, visit_fresh modules fuel x t t₂ t₃ test fresh walked finished, counted₃)
      ]

  -- Behind the walk nothing is active, so that what is visited is done.
  settled : (t : Tour) (i : ℕ) → Later no_tour t → state t i ≢ unvisited → state t i ≡ done
  settled t i l h = elim (l.moved i) [
    | inr last ↦ last
    | inl same ↦ absurd (h (same ∙ no_state i 32))
  ]

  reached_done :
      (t : Tour) (i : ℕ)
      → Good modules few t
      → Later no_tour t
      → state t 0 ≢ unvisited
      → Reaches modules 0 i
      → state t i ≡ done
  reached_done t i g l root here = settled t 0 l root
  reached_done t i g l root (step {b} path h) =
      let before = reached_done t b g l root path in
      settled t i l (g.closed b i (g.visited b before) h)

  all_done_total :
      (n : ℕ) (vs : List Visit)
      → ((i : ℕ) → i < n → get_or vs i unvisited ≡ done)
      → all_done n vs ≡ true
  unfolding all_done
  all_done_total zero vs h = refl
  all_done_total (suc n) [] h = ground (arith, h 0 (omega arith))
  all_done_total (suc n) (done ∷ vs) h = all_done_total n vs (λ i k. h (suc i) (omega arith))
  all_done_total (suc n) (active ∷ vs) h = ground (arith, h 0 (omega arith))
  all_done_total (suc n) (unvisited ∷ vs) h = ground (arith, h 0 (omega arith))

  -- With 32 modules at most, and one at least, whose dependencies are modules and which are all reached from the first one,
  -- the call succeeds: neither the depth nor the number of modules is exceeded.
  pub compute_order_total :
      0 < length modules
      → ((i : ℕ) → i < length modules → Reaches modules 0 i)
      → (t : Tour) × (compute_order modules ≡ ok t)
  unfolding compute_order
  compute_order_total some_modules reached =
      let idle = λ (a : ℕ) (act : state no_tour a ≡ active). nothing_active modules few a act in
      let (t, walked, counted) =
        visit-Runs (loader_max_modules + 1) 0 no_tour (no_tour-Good modules few) idle refl
          some_modules (omega arith) in
      let (g, l, seen) =
        visit-Visits modules few (loader_max_modules + 1) 0 no_tour t (no_tour-Good modules few)
          idle walked in
      let whole =
        all_done_total (length modules) t.visit_state
          (λ i h. reached_done t i g l seen (reached i h)) in
      let full : (length modules == 0) ≡ false = ground arith in (t, rw (full, walked, whole) refl)
