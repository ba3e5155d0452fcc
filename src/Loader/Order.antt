-- ===== src/Loader/Order.antt =====
-- The order of pw_loader_compute_order: every module once, behind its dependencies, except on a cycle.
use ps5_homebrew_lab.Common.{
  ℕ, zero, suc, ◌+◌, ◌%◌, ◌^◌, ◌≤◌, ◌<◌, ◌≡◌, ◌⊎◌, inl, inr, true, List, [], ◌∷◌, length, get_or,
  ◌==◌, ltb, ok, >>=-eq-ok, arith, refl, sym, ◌∙◌, Bool-cases, ltb→lt, refuse, precondition,
}
use ps5_homebrew_lab.Loader.{
  Edges, Visit, unvisited, active, done, Tour, mark, visit_edges, finish_visit, visit, no_tour,
  all_done, compute_order, loader_max_modules,
}
use ps5_homebrew_lab.Loader.Paths.{In, Distinct, Earlier, edges_of, Reaches, state}
use ps5_homebrew_lab.Loader.Stack.{
  Later-refl, Good, Visits, visit_edges-Good, state_cases, no_state, ok_same, left_of,
}
use ps5_homebrew_lab.Loader.Enter.{entered-Good, entered-OnStack, left-Good, left-Later, left_here}

module _ (modules : List Edges) (few : length modules ≤ 32) where
  finish_visit-ok : (x : ℕ) (t t' : Tour) → finish_visit x t ≡ ok t' → left_of x t ≡ t'
  unfolding finish_visit
  finish_visit-ok x t t' e = ground arith

  pub visit-Visits : (fuel : ℕ) → Visits modules few fuel
  unfolding visit
  visit-Visits zero x t t' g on e = cc
  visit-Visits (suc fuel) x t t' g on e = elim (Bool-cases (ltb x (length modules))) [
    | inr outside ↦ let e₁ = rw (outside, visit) at e in cc
    | inl inside ↦
        let e₁ = rw (inside, visit) at e in
        elim (state_cases t x) [
          | inr (inr last) ↦
              let same : t ≡ t' = ok_same t t' (rw last at e₁) in
              rw (← same) (g, Later-refl t, λ gone. ground (arith, sym last ∙ gone))
          | inr (inl act) ↦
              let counted = record t { cycle_edges = (t.cycle_edges + 1) % 2 ^ 32 } in
              let same : counted ≡ t' = ok_same counted t' (rw act at e₁) in
              rw (← same) (
                record {
                  sized = g.sized;
                  distinct = g.distinct;
                  listed = g.listed;
                  visited = g.visited;
                  inside = g.inside;
                  closed = g.closed;
                  placed = g.placed;
                },
                record { kept = λ i h. refl; moved = λ i. inl refl },
                λ gone. ground (arith, sym act ∙ gone),
              )
          | inl fresh ↦
              let small : x < length modules = ltb→lt x (length modules) inside in
              let e₂ = rw fresh at e₁ in
              let (t₂, walked, finished) =
                >>=-eq-ok (visit_edges (visit modules fuel) (edges_of modules x) (mark t x active))
                  _ e₂ in
              let (g₂, l, seen) =
                visit_edges-Good modules few fuel (visit-Visits fuel) (edges_of modules x)
                  (mark t x active) t₂ (entered-Good modules few x t g on fresh small)
                  (entered-OnStack modules few x t g on fresh small) walked in
              rw (← finish_visit-ok x t₂ t' finished) (
                left-Good modules few x t g on fresh small t₂ g₂ l seen,
                left-Later modules few x t g on fresh small t₂ g₂ l seen,
                λ gone.
                    ground
                      (arith, sym (left_here modules few x t g on fresh small t₂ g₂ l seen) ∙ gone),
              )
        ]
  ]

  pub nothing_active : (a : ℕ) → state no_tour a ≡ active → Reaches modules a 0
  nothing_active a act = ground (arith, sym (no_state a 32) ∙ act)

  pub no_tour-Good : Good modules few no_tour
  no_tour-Good = record {
    sized = refl;
    distinct = refl;
    listed = λ i h. cc;
    visited = λ i e. ground (arith, sym (no_state i 32) ∙ e);
    inside = λ i h. cc;
    closed = λ u v h k. cc;
    placed = λ u v h k. cc;
  }

  all_done-at :
      (n : ℕ) (vs : List Visit) (i : ℕ)
      → all_done n vs ≡ true
      → i < n
      → get_or vs i unvisited ≡ done
  unfolding all_done
  all_done-at zero vs i e h = elim h [ ]
  all_done-at (suc n) [] i e h = cc
  all_done-at (suc n) (done ∷ vs) zero e h = refl
  all_done-at (suc n) (done ∷ vs) (suc i) e h = all_done-at n vs i e (omega arith)
  all_done-at (suc n) (active ∷ vs) i e h = cc
  all_done-at (suc n) (unvisited ∷ vs) i e h = cc

  -- A call of pw_loader_compute_order that succeeds on 32 modules at most orders them: every module stands in the order,
  -- nothing else does, and none twice; and each dependency of a module stands before it, unless it reaches the module in
  -- turn.
  pub compute_order_lem :
      (t : Tour)
      → compute_order modules ≡ ok t
      → Distinct t.order
        × ((i : ℕ) → i < length modules → In i t.order)
        × ((i : ℕ) → In i t.order → i < length modules)
        × ((u v : ℕ)
            → In u t.order
            → In v (edges_of modules u)
            → Earlier v u t.order ⊎ Reaches modules v u)
  unfolding compute_order
  compute_order_lem t e =
      let (_, t₁, e₁) = >>=-eq-ok (refuse (length modules == 0) precondition) _ e in
      let (u, walked, e₂) = >>=-eq-ok (visit modules (loader_max_modules + 1) 0 no_tour) _ e₁ in
      let same : u ≡ t = ground arith in
      let whole : all_done (length modules) u.visit_state ≡ true = ground arith in
      let (g, l, seen) =
        visit-Visits (loader_max_modules + 1) 0 no_tour u no_tour-Good nothing_active walked in
      rw (← same) (
        g.distinct,
        λ i h. g.visited i (all_done-at (length modules) u.visit_state i whole h),
        g.inside,
        g.placed,
      )
