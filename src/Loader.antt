-- ===== src/Loader.antt =====
-- projects/prospero-win/src/pw_loader.h and pw_loader.c: the modules that a program depends on, and the order
-- in which they are started.
pub mod Paths
pub mod Stack
pub mod Enter
pub mod Order
pub mod Counts
pub mod Ends
mod Tests
use ps5_homebrew_lab.Common.{
  ℕ, zero, suc, ◌+◌, ◌%◌, ◌^◌, Bool, true, false, not, ◌||◌, Option, none, some, List, [], ◌∷◌,
  ◌++◌, length, get_or, set, replicate, ltb, leb, ◌==◌, if◌then◌else◌, Outcome, ok, err, fault,
  ◌>>=◌, ◌>>◌, refuse, precondition, limit, bad_state,
}

-- The dependencies of a module, each recorded once.
abbrev pub Edges : Type 0
Edges = List ℕ

abbrev pub loader_max_modules : ℕ
loader_max_modules = 32

abbrev pub max_edges : ℕ
max_edges = 32

pub has_edge : Edges → ℕ → Bool
has_edge [] target = false
has_edge (x ∷ xs) target = x == target || has_edge xs target

pub add_dependency : Edges → ℕ → Outcome Edges
add_dependency dependencies target =
    if has_edge dependencies target
    then ok dependencies
    else if leb max_edges (length dependencies)
    then err limit
    else ok (dependencies ++ (target ∷ []))

-- VISIT_NEW, VISIT_ACTIVE and VISIT_DONE
pub data Visit : Type 0 where
  unvisited active done : Visit

-- The fields that the walk changes: visit_state, order and cycle_edges.
pub record Tour : Type 0 where
  pub visit_state : List Visit
  pub order : List ℕ
  pub cycle_edges : ℕ

abbrev pub mark : Tour → ℕ → Visit → Tour
mark t index v = record t { visit_state = set t.visit_state index v }

abbrev pub visit_edges : (ℕ → Tour → Outcome Tour) → Edges → Tour → Outcome Tour
visit_edges walk [] t = ok t
visit_edges walk (x ∷ xs) t = walk x t >>= λ next. visit_edges walk xs next

pub finish_visit : ℕ → Tour → Outcome Tour
finish_visit index t =
    if leb loader_max_modules (length t.order)
    then err limit
    else ok (record (mark t index done) { order = t.order ++ (index ∷ []) })

-- The fuel is PW_LOADER_MAX_MODULES + 1 less the depth: a call at a greater depth is refused.
pub visit : List Edges → ℕ → ℕ → Tour → Outcome Tour
visit modules zero index t = err limit
visit modules (suc fuel) index t = elim (ltb index (length modules)) [
  | false ↦ err precondition
  | true ↦ elim (get_or t.visit_state index unvisited) [
    | done ↦ ok t
    | active ↦ ok (record t { cycle_edges = (t.cycle_edges + 1) % 2 ^ 32 })
    | unvisited ↦
        visit_edges (visit modules fuel) (get_or modules index []) (mark t index active)
        >>= finish_visit index
  ]
]

abbrev pub no_tour : Tour
no_tour = record { visit_state = replicate 32 unvisited; order = []; cycle_edges = 0 }

-- The loop behind the walk: the first modules, as many as are registered, have been visited.
pub all_done : ℕ → List Visit → Bool
all_done zero vs = true
all_done (suc n) [] = false
all_done (suc n) (done ∷ vs) = all_done n vs
all_done (suc n) (v ∷ vs) = false

pub compute_order : List Edges → Outcome Tour
compute_order modules = do
  refuse (length modules == 0) precondition
  t ← visit modules (loader_max_modules + 1) 0 no_tour
  refuse (not (all_done (length modules) t.visit_state)) bad_state
  ok t
