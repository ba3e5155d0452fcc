-- ===== src/GuestHeap/Live.antt =====
-- The abstract view of a heap: a finite map from the offsets of the blocks in use to the sizes that
-- were asked for. The operations on the list of blocks act on it as an insertion and a removal.
use mathlib.Core.Option
use ps5_homebrew_lab.Common.{
  ℕ, zero, suc, ◌+◌, ◌-◌, ◌≤◌, ◌<◌, ◌≡◌, ◌&&◌, not, Bool, Option, none, some, List, [], ◌∷◌, length,
  arith, refl, ltb, ◌==◌, if◌then◌else◌, ok, err, Outcome, precondition, >>=-eq-ok, sym, ◌∙◌,
}
use ps5_homebrew_lab.GuestHeap.{
  Block, Heap, is_free, validate, find_index, find, block_at, mark, shrink, shrink_at, grow,
  merge_next, merge_previous, query,
}
use ps5_homebrew_lab.GuestHeap.Calls.{block_bounds}
use ps5_homebrew_lab.GuestHeap.Valid.{Tiled, IsValid, validate-IsValid, Tiled-le}

pub requested_at : ℕ → List Block → Option ℕ
requested_at o [] = none
requested_at o (b ∷ bs) =
    if b.offset == o && not (is_free b) then some b.requested else requested_at o bs

pub requested_at-merge_next :
    (o i : ℕ) (bs : List Block) → requested_at o (merge_next i bs) ≡ requested_at o bs
unfolding requested_at merge_next
requested_at-merge_next o zero [] = refl
requested_at-merge_next o zero (b ∷ []) = refl
requested_at-merge_next o zero (b ∷ n ∷ bs) = ground arith
requested_at-merge_next o (suc i) [] = refl
requested_at-merge_next o (suc i) (b ∷ bs) = ground (arith, requested_at-merge_next o i bs)

pub requested_at-merge_previous :
    (o i : ℕ) (bs : List Block) → requested_at o (merge_previous i bs) ≡ requested_at o bs
unfolding merge_previous
requested_at-merge_previous o zero bs = refl
requested_at-merge_previous o (suc i) bs = ground (arith, requested_at-merge_next o i bs)

pub requested_at-grow :
    (o size i : ℕ) (bs : List Block) → requested_at o (grow size i bs) ≡ requested_at o bs
unfolding grow
requested_at-grow o size i bs = ground (arith, requested_at-merge_next o i bs)

requested_at-shrink_at :
    (o : ℕ) (room : Bool) (size i : ℕ) (bs : List Block)
    → requested_at o (shrink_at room size i bs) ≡ requested_at o bs
unfolding requested_at shrink_at
requested_at-shrink_at o room size i [] = refl
requested_at-shrink_at o room size zero (b ∷ []) = ground arith
requested_at-shrink_at o room size zero (b ∷ n ∷ bs) = ground arith
requested_at-shrink_at o room size (suc i) (b ∷ bs) =
    ground (arith, requested_at-shrink_at o room size i bs)

pub requested_at-shrink :
    (o capacity size i : ℕ) (bs : List Block)
    → requested_at o (shrink capacity i size bs) ≡ requested_at o bs
unfolding shrink
requested_at-shrink o capacity size i bs =
    requested_at-shrink_at o (ltb (length bs) capacity) size i bs

requested_below :
    (x o : ℕ) (f : Bool) (bs : List Block) (e : ℕ)
    → Tiled o f bs e
    → x < o
    → requested_at x bs ≡ none
unfolding requested_at
requested_below x o f [] e t h = refl
requested_below x o f (b ∷ bs) e t h =
    ground (arith, requested_below x (o + b.size) (is_free b) bs e t.1)

-- Marking a block inserts its offset into the map, or removes it.
pub requested_at-mark :
    (x used n i o : ℕ) (f : Bool) (bs : List Block) (e : ℕ)
    → Tiled o f bs e
    → i < length bs
    → requested_at x (mark used n i bs) ≡ (
        if (block_at i bs).offset == x
        then if used == 0 then none else some n
        else requested_at x bs)
unfolding requested_at mark block_at
requested_at-mark x used n i o f [] e t h = absurd (omega arith)
requested_at-mark x used n zero o f (b ∷ bs) e t h =
    ground (arith, requested_below x (o + b.size) (is_free b) bs e t.1)
requested_at-mark x used n (suc i) o f (b ∷ bs) e t h = ground (
  arith,
  block_bounds i (o + b.size) (is_free b) bs e t.1,
  requested_at-mark x used n i (o + b.size) (is_free b) bs e t.1,
)

-- What pw_guest_heap_query answers is what the map holds.
find-requested :
    (o : ℕ) (bs : List Block)
    → Option.map (λ i. (block_at i bs).requested) (find_index o bs) ≡ requested_at o bs
unfolding requested_at find_index block_at
find-requested o [] = refl
find-requested o (b ∷ bs) = ground (arith, find-requested o bs)

abbrev pub answer : Option ℕ → Outcome ℕ
answer none = err precondition
answer (some n) = ok n

pub query_lem :
    (h : Heap) (address : ℕ)
    → IsValid h
    → query h address ≡ (
        if ltb address h.base
        then err precondition
        else answer (requested_at (address - h.base) h.blocks))
unfolding query find
query_lem h address v =
    ground (arith, (validate-IsValid h).1 v, find-requested (address - h.base) h.blocks)

pub requested_at-block_at :
    (i o : ℕ) (f : Bool) (bs : List Block) (e : ℕ)
    → Tiled o f bs e
    → i < length bs
    → requested_at (block_at i bs).offset bs
      ≡ (if is_free (block_at i bs) then none else some (block_at i bs).requested)
unfolding requested_at block_at
requested_at-block_at i o f [] e t h = absurd (omega arith)
requested_at-block_at zero o f (b ∷ bs) e t h =
    ground (arith, requested_below b.offset (o + b.size) (is_free b) bs e t.1)
requested_at-block_at (suc i) o f (b ∷ bs) e t h = ground (
  arith,
  block_bounds i (o + b.size) (is_free b) bs e t.1,
  requested_at-block_at i (o + b.size) (is_free b) bs e t.1,
)

pub requested_within :
    (x o : ℕ) (f : Bool) (bs : List Block) (e m : ℕ)
    → Tiled o f bs e
    → requested_at x bs ≡ some m
    → x + m ≤ e
unfolding requested_at
requested_within x o f [] e m t p = cc
requested_within x o f (b ∷ bs) e m t p = ground (
  arith,
  Tiled-le (o + b.size) (is_free b) bs e t.1,
  requested_within x (o + b.size) (is_free b) bs e m t.1,
)

-- The span of a block in use ends before the next one.
pub requested_apart :
    (x y o : ℕ) (f : Bool) (bs : List Block) (e m n : ℕ)
    → Tiled o f bs e
    → requested_at x bs ≡ some m
    → requested_at y bs ≡ some n
    → x < y
    → x + m ≤ y
unfolding requested_at
requested_apart x y o f [] e m n t p q h = cc
requested_apart x y o f (b ∷ bs) e m n t p q h = ground (
  arith,
  requested_below x (o + b.size) (is_free b) bs e t.1,
  requested_below y (o + b.size) (is_free b) bs e t.1,
  requested_apart x y (o + b.size) (is_free b) bs e m n t.1,
)

pub query-eq-ok :
    (h : Heap) (a m : ℕ)
    → query h a ≡ ok m
    → IsValid h × (h.base ≤ a) × (requested_at (a - h.base) h.blocks ≡ some m)
unfolding query
query-eq-ok h a m p =
    let (_, checked, _) = >>=-eq-ok (validate h) _ p in
    let v = (validate-IsValid h).0 checked in
    let q = sym (query_lem h a v) ∙ p in (v, ground arith, ground arith)
