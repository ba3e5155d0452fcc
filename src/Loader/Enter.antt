-- ===== src/Loader/Enter.antt =====
-- The walk of pw_loader.c enters a module and leaves it behind its dependencies.
use ps5_homebrew_lab.Common.{
  ℕ, ◌≤◌, ◌<◌, ◌≡◌, ◌≢◌, ◌⊎◌, inl, inr, List, [], ◌∷◌, length, arith, ap, sym, ◌∙◌, length-set,
}
use native.Mathlib.Decide.{ℕ_discrete}
use ps5_homebrew_lab.Loader.{Edges, unvisited, active, done, Tour, mark}
use ps5_homebrew_lab.Loader.Paths.{
  In, Earlier, edges_of, Reaches, here, step, state, In-append_left, In-append_last, In-append,
  Distinct-append, Earlier-append, Earlier-last, state-mark, state-mark_other,
}
use ps5_homebrew_lab.Loader.Stack.{Later, Later-active, Good, OnStack, state_cases, left_of}

module _ (modules : List Edges) (few : length modules ≤ 32) where
  -- A module that is entered.
  module _ (x : ℕ) (t : Tour) (g : Good modules few t) (on : OnStack modules few t x)
      (fresh : state t x ≡ unvisited) (known : x < length modules) where
    abbrev pub entered : Tour
    entered = mark t x active

    pub in_table : x < length t.visit_state
    in_table = omega (arith, g.sized, few)

    apart_from : (i : ℕ) → state t i ≢ unvisited → x ≢ i
    apart_from i h e = h (ap (state t) (sym e) ∙ fresh)

    entered_elsewhere : (i : ℕ) → x ≢ i → state entered i ≡ state t i
    entered_elsewhere i d = state-mark_other t x i active d

    entered_seen : (v : ℕ) → state t v ≢ unvisited → state entered v ≢ unvisited
    entered_seen v h gone = h (sym (entered_elsewhere v (apart_from v h)) ∙ gone)

    pub entered-Good : Good modules few entered
    entered-Good = record {
      sized = length-set t.visit_state x active ∙ g.sized;
      distinct = g.distinct;
      listed = λ i h.
          let old = g.listed i h in
          entered_elsewhere i (apart_from i (λ e. ground (arith, sym old ∙ e))) ∙ old;
      visited = λ i e. elim (ℕ_discrete x i) [
        | no apart ↦ g.visited i (sym (entered_elsewhere i apart) ∙ e)
        | yes same ↦
            ground (arith, sym (state-mark t x active in_table) ∙ ap (state entered) same ∙ e)
      ];
      inside = g.inside;
      closed = λ u v h k. entered_seen v (g.closed u v h k);
      placed = g.placed;
    }

    pub entered-OnStack : (v : ℕ) → In v (edges_of modules x) → OnStack modules few entered v
    entered-OnStack v h a act = elim (ℕ_discrete x a) [
      | yes same ↦ rw (← same) (step here h)
      | no apart ↦ step (on a (sym (entered_elsewhere a apart) ∙ act)) h
    ]

    -- The module is left behind its dependencies.
    module _ (t₂ : Tour) (g₂ : Good modules few t₂) (l : Later entered t₂)
        (seen : (v : ℕ) → In v (edges_of modules x) → state t₂ v ≢ unvisited) where
      abbrev pub left : Tour
      left = left_of x t₂

      pub still_active : state t₂ x ≡ active
      still_active =
          let now = state-mark t x active in_table in
          l.kept x (λ e. ground (arith, sym now ∙ e)) ∙ now

      in_table₂ : x < length t₂.visit_state
      in_table₂ = omega (arith, g₂.sized, few)

      left_elsewhere : (i : ℕ) → x ≢ i → state left i ≡ state t₂ i
      left_elsewhere i d = state-mark_other t₂ x i done d

      pub left_here : state left x ≡ done
      left_here = state-mark t₂ x done in_table₂

      left_seen : (v : ℕ) → state t₂ v ≢ unvisited → state left v ≢ unvisited
      left_seen v h = elim (ℕ_discrete x v) [
        | yes same ↦ λ gone. ground (arith, sym left_here ∙ ap (state left) same ∙ gone)
        | no apart ↦ λ gone. h (sym (left_elsewhere v apart) ∙ gone)
      ]

      dependency_placed :
          (v : ℕ) → In v (edges_of modules x) → Earlier v x left.order ⊎ Reaches modules v x
      dependency_placed v h = elim (state_cases t₂ v) [
        | inl gone ↦ absurd (seen v h gone)
        | inr (inr last) ↦ inl (Earlier-last v x t₂.order (g₂.visited v last))
        | inr (inl act) ↦ elim (ℕ_discrete x v) [
          | yes same ↦ inr (rw (← same) here)
          | no apart ↦
              inr (on v (sym (entered_elsewhere v apart) ∙ Later-active entered t₂ v l act))
        ]
      ]

      pub left-Good : Good modules few left
      left-Good = record {
        sized = length-set t₂.visit_state x done ∙ g₂.sized;
        distinct =
            Distinct-append t₂.order x g₂.distinct
              (λ h. ground (arith, sym still_active ∙ g₂.listed x h));
        listed = λ i h. elim (ℕ_discrete x i) [
          | yes same ↦ rw (← same) left_here
          | no apart ↦ elim (In-append i t₂.order x h) [
            | inl old ↦ left_elsewhere i apart ∙ g₂.listed i old
            | inr new ↦ absurd (apart (sym new))
          ]
        ];
        visited = λ i e. elim (ℕ_discrete x i) [
          | yes same ↦ rw (← same) (In-append_last t₂.order x)
          | no apart ↦
              In-append_left i t₂.order (x ∷ []) (g₂.visited i (sym (left_elsewhere i apart) ∙ e))
        ];
        inside = λ i h. elim (In-append i t₂.order x h) [
          | inl old ↦ g₂.inside i old
          | inr new ↦ rw new known
        ];
        closed = λ u v h k. elim (In-append u t₂.order x h) [
          | inl old ↦ left_seen v (g₂.closed u v old k)
          | inr new ↦ left_seen v (seen v (rw new at k))
        ];
        placed = λ u v h k. elim (In-append u t₂.order x h) [
          | inl old ↦ elim (g₂.placed u v old k) [
            | inl before ↦ inl (Earlier-append v u x t₂.order before)
            | inr around ↦ inr around
          ]
          | inr new ↦ rw new (dependency_placed v (rw new at k))
        ];
      }

      pub left-Later : Later t left
      left-Later = record {
        kept = λ i h.
            let apart = apart_from i h in
            let old = entered_elsewhere i apart in
            left_elsewhere i apart ∙ l.kept i (λ e. h (sym old ∙ e)) ∙ old;
        moved = λ i. elim (ℕ_discrete x i) [
          | yes same ↦ inr (rw (← same) left_here)
          | no apart ↦ elim (l.moved i) [
            | inl same ↦ inl (left_elsewhere i apart ∙ same ∙ entered_elsewhere i apart)
            | inr last ↦ inr (left_elsewhere i apart ∙ last)
          ]
        ];
      }
