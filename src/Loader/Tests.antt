-- ===== src/Loader/Tests.antt =====
-- A program with two modules that depend on each other, and the theorems on the order at it.
use ps5_homebrew_lab.Common.{
  ℕ, zero, suc, ◌<◌, ◌≡◌, ◌⊎◌, inl, inr, List, [], ◌∷◌, ok, arith, refl, replicate,
}
use ps5_homebrew_lab.Loader.{
  Edges, unvisited, done, Tour, visit, finish_visit, all_done, compute_order,
}
use ps5_homebrew_lab.Loader.Paths.{In, Distinct, Earlier, edges_of, Reaches, here, step}
use ps5_homebrew_lab.Loader.Order.{compute_order_lem}
use ps5_homebrew_lab.Loader.Ends.{compute_order_total}

abbrev modules : List Edges
modules = (1 ∷ 2 ∷ []) ∷ (2 ∷ []) ∷ (1 ∷ []) ∷ []

abbrev tour : Tour
tour = record {
  visit_state = done ∷ done ∷ done ∷ replicate 29 unvisited;
  order = 2 ∷ 1 ∷ 0 ∷ [];
  cycle_edges = 1;
}

compute_order_run : compute_order modules ≡ ok tour
unfolding compute_order visit finish_visit all_done
compute_order_run = refl

compute_order_lem_example :
    Distinct (2 ∷ 1 ∷ 0 ∷ [])
    × ((i : ℕ) → i < 3 → In i (2 ∷ 1 ∷ 0 ∷ []))
    × ((i : ℕ) → In i (2 ∷ 1 ∷ 0 ∷ []) → i < 3)
    × ((u v : ℕ)
        → In u (2 ∷ 1 ∷ 0 ∷ [])
        → In v (edges_of modules u)
        → Earlier v u (2 ∷ 1 ∷ 0 ∷ []) ⊎ Reaches modules v u)
compute_order_lem_example = compute_order_lem modules (omega arith) tour compute_order_run

all_known : (u v : ℕ) → In v (edges_of modules u) → v < 3
all_known zero v (inl e) = omega arith
all_known zero v (inr (inl e)) = omega arith
all_known zero v (inr (inr h)) = cc
all_known (suc zero) v (inl e) = omega arith
all_known (suc zero) v (inr h) = cc
all_known (suc (suc zero)) v (inl e) = omega arith
all_known (suc (suc zero)) v (inr h) = cc
all_known (suc (suc (suc u))) v h = cc

all_reached : (i : ℕ) → i < 3 → Reaches modules 0 i
all_reached zero h = here
all_reached (suc zero) h = step here (inl refl)
all_reached (suc (suc zero)) h = step here (inr (inl refl))
all_reached (suc (suc (suc i))) h = ground arith

compute_order_total_example : (t : Tour) × (compute_order modules ≡ ok t)
compute_order_total_example =
    compute_order_total modules (omega arith) all_known (omega arith) all_reached

-- A root that imports a local module first and a host module second: the local one comes first.
host_second_run :
    compute_order ((1 ∷ 2 ∷ []) ∷ [] ∷ [] ∷ [])
    ≡ ok (record {
      visit_state = done ∷ done ∷ done ∷ replicate 29 unvisited;
      order = 1 ∷ 2 ∷ 0 ∷ [];
      cycle_edges = 0;
    })
unfolding compute_order visit finish_visit all_done
host_second_run = refl
