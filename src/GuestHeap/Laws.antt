-- ===== src/GuestHeap/Laws.antt =====
-- What the callers of pw_guest_heap_alloc, query and free rely on, in terms of query alone.
use ps5_homebrew_lab.Common.{
  ℕ, zero, suc, ◌+◌, ◌-◌, ◌%◌, ◌^◌, ◌≤◌, ◌<◌, ◌≡◌, ◌≢◌, ◌⊎◌, Bool, false, none, List, [], ◌∷◌,
  length, arith, Option-cases, ◌==◌, if◌then◌else◌, ok, err, Error, precondition, limit, >>=-eq-ok,
  neq_test, inl, inr, bit_and,
}
use native.Mathlib.Decide.{dec_lt}
use ps5_homebrew_lab.Common.Bits.{bit_and_high}
use ps5_homebrew_lab.GuestHeap.{
  Block, Heap, is_free, validate, find_free, find, block_at, mark, rounded, merge_next,
  merge_previous, query, alloc, free, release,
}
use ps5_homebrew_lab.GuestHeap.Calls.{
  block_bounds, alloc-eq-ok, alloc-IsValid, find_free_lem, find_index_lem, find-eq-ok, rounded_lem,
  release-IsValid,
}
use ps5_homebrew_lab.GuestHeap.Live.{
  requested_at-mark, requested_at-shrink, requested_at-merge_next, requested_at-merge_previous,
  query_lem, query-eq-ok, requested_apart, requested_at-block_at,
}
use ps5_homebrew_lab.GuestHeap.Valid.{Tiled, IsValid, validate-IsValid}

-- After an allocation the new address holds the request, and every other answer is unchanged.
pub query-alloc :
    (h : Heap) (n : ℕ) (h' : Heap) (p : ℕ)
    → alloc h n ≡ ok (h', p)
    → (a : ℕ) → query h' a ≡ (if a == p then ok n else query h a)
query-alloc h n h' p e a =
    let (size, i, v, fits, found, shape, at) = alloc-eq-ok h n h' p e in
    let below = (find_free_lem size h.blocks i found).2 in
    let bounds = block_bounds i 0 false h.blocks h.bytes v.tiled below in
    let v' = alloc-IsValid h n h' p e in
    let here : p ≡ h.base + (block_at i h.blocks).offset = omega (arith, v.addressable, bounds) in
    rw
      (
        query_lem h' a v',
        query_lem h a v,
        shape,
        requested_at-shrink (a - h.base) h.capacity size i (mark 1 n i h.blocks),
        requested_at-mark (a - h.base) 1 n i 0 false h.blocks h.bytes v.tiled below,
        here,
      )
      (ground arith)

-- The new address is not null, is 16-byte aligned and has the span inside of the heap; it was unknown.
pub alloc_address :
    (h : Heap) (n : ℕ) (h' : Heap) (p : ℕ)
    → alloc h n ≡ ok (h', p)
    → (0 < p)
      × (p % 16 ≡ 0)
      × (h.base ≤ p)
      × (p + n ≤ h.base + h.bytes)
      × (query h p ≡ err precondition)
alloc_address h n h' p e =
    let (size, i, v, fits, found, _, _) = alloc-eq-ok h n h' p e in
    let (was_free, large, below) = find_free_lem size h.blocks i found in
    let bounds = block_bounds i 0 false h.blocks h.bytes v.tiled below in
    let here : p ≡ h.base + (block_at i h.blocks).offset =
      omega (arith, v.addressable, bounds, (alloc-eq-ok h n h' p e).6) in
    let r = rounded_lem n size fits in
    (
      omega (arith, v.based),
      omega (arith, v.base_granular, bounds),
      omega arith,
      omega (arith, bounds, r, large),
      rw (query_lem h p v) (
          ground (
            arith,
            was_free,
            here,
            requested_at-block_at i 0 false h.blocks h.bytes v.tiled below,
          )),
    )

query-release :
    (h : Heap) (address : ℕ) (h' : Heap)
    → IsValid h
    → release h address ≡ ok h'
    → (a : ℕ) → query h' a ≡ (if a == address then err precondition else query h a)
unfolding release
query-release h address h' v released a =
    let (i, found, done) = >>=-eq-ok (find h address) _ released in
    let (above, index) = find-eq-ok h address i found in
    let (at, _, below) = find_index_lem (address - h.base) h.blocks i index in
    let v' = release-IsValid h address h' v released in
    let shape : h' ≡ record h { blocks = merge_previous i (merge_next i (mark 0 0 i h.blocks)) } =
      cc in
    rw
      (
        query_lem h' a v',
        query_lem h a v,
        shape,
        requested_at-merge_previous (a - h.base) i (merge_next i (mark 0 0 i h.blocks)),
        requested_at-merge_next (a - h.base) i (mark 0 0 i h.blocks),
        requested_at-mark (a - h.base) 0 0 i 0 false h.blocks h.bytes v.tiled below,
        at,
      )
      (ground arith)

-- After a release the address is unknown, and every other answer is unchanged.
pub query-free :
    (h : Heap) (address : ℕ) (h' : Heap)
    → address ≢ 0
    → free h address ≡ ok h'
    → (a : ℕ) → query h' a ≡ (if a == address then err precondition else query h a)
unfolding free
query-free h address h' present e a =
    let (_, checked, rest) = >>=-eq-ok (validate h) _ e in
    let released = rw (neq_test address 0 present) at rest in
    query-release h address h' ((validate-IsValid h).0 checked) released a

-- Spans that are in use do not overlap.
pub query_disjoint :
    (h : Heap) (a b m n : ℕ)
    → query h a ≡ ok m
    → query h b ≡ ok n
    → a ≢ b
    → (a + m ≤ b) ⊎ (b + n ≤ a)
query_disjoint h a b m n p q r =
    let (v, above_a, at_a) = query-eq-ok h a m p in
    let (_, above_b, at_b) = query-eq-ok h b n q in
    let x = a - h.base in
    let y = b - h.base in
    ground (
      arith,
      requested_apart x y 0 false h.blocks h.bytes m n v.tiled at_a at_b,
      requested_apart y x 0 false h.blocks h.bytes n m v.tiled at_b at_a,
    )

-- The new span is not null, is 16-byte aligned and inside of the heap, and was not in use: its address was
-- unknown, and it overlaps no request that was there.
pub alloc_placement :
    (h : Heap) (n : ℕ) (h' : Heap) (p : ℕ)
    → alloc h n ≡ ok (h', p)
    → (0 < p)
      × (p % 16 ≡ 0)
      × (h.base ≤ p)
      × (p + n ≤ h.base + h.bytes)
      × (query h p ≡ err precondition)
      × ((a r : ℕ) → query h a ≡ ok r → (a + r ≤ p) ⊎ (p + n ≤ a))
alloc_placement h n h' p e =
    let answers = query-alloc h n h' p e in
    let (some_place, aligned, low, high, unknown) = alloc_address h n h' p e in
    (
      some_place,
      aligned,
      low,
      high,
      unknown,
      λ a r live.
          let away : a ≢ p = λ s. ground arith in
          query_disjoint h' a p r n (ground (arith, answers a)) (ground (arith, answers p)) away,
    )

find_free-none :
    (size : ℕ) (bs : List Block)
    → find_free size bs ≡ none
    → (i : ℕ) → i < length bs
    → (0 < (block_at i bs).used) ⊎ ((block_at i bs).size < size)
unfolding find_free block_at
find_free-none size [] e i h = absurd (omega arith)
find_free-none size (b ∷ bs) e zero h = ground arith
find_free-none size (b ∷ bs) e (suc i) h = find_free-none size bs (ground arith) i (omega arith)

rounded_total : (n : ℕ) → n ≤ 2 ^ 32 - 16 → (size : ℕ) × (rounded n ≡ ok size)
unfolding rounded
rounded_total n h = (if n == 0 then 16 else bit_and (n + 15) (2 ^ 32 - 16), ground arith)

-- A request is rounded to the least multiple of 16 that holds it, and that is not 0.
rounded_least :
    (n size : ℕ) → rounded n ≡ ok size → (size % 16 ≡ 0) × ((size ≡ 16) ⊎ (size < n + 16))
unfolding rounded
rounded_least n size e = ground (arith, bit_and_high 4 32 (n + 15))

block_granular :
    (i o : ℕ) (f : Bool) (bs : List Block) (e : ℕ)
    → Tiled o f bs e
    → i < length bs
    → (block_at i bs).size % 16 ≡ 0
unfolding block_at
block_granular i o f [] e t h = absurd (omega arith)
block_granular zero o f (b ∷ bs) e t h = t.0.granular
block_granular (suc i) o f (b ∷ bs) e t h =
    block_granular i (o + b.size) (is_free b) bs e t.1 (omega arith)

-- The failure of an allocation whose size has been rounded.
exhausted :
    (h : Heap) (n size : ℕ) (e : Error)
    → IsValid h
    → rounded n ≡ ok size
    → alloc h n ≡ err e
    → (e ≡ limit) × (find_free size h.blocks ≡ none)
unfolding alloc
exhausted h n size e v fits failed = elim (Option-cases (find_free size h.blocks)) [
  | inl missing ↦ ground (arith, (validate-IsValid h).1 v)
  | inr (i, found) ↦ absurd (ground (arith, (validate-IsValid h).1 v))
]

too_large :
    (h : Heap) (n : ℕ) (e : Error) → IsValid h → 2 ^ 32 - 16 < n → alloc h n ≡ err e → e ≡ limit
unfolding alloc rounded
too_large h n e v large failed = ground (arith, (validate-IsValid h).1 v)

-- In a valid heap, a block whose size lacks room for a request that is rounded lacks room for the request.
too_small :
    (h : Heap) (n size i : ℕ)
    → IsValid h
    → rounded n ≡ ok size
    → i < length h.blocks
    → (block_at i h.blocks).size < size
    → (block_at i h.blocks).size < n
too_small h n size i v fits below short =
    let r = rounded_least n size fits in
    let b = block_bounds i 0 false h.blocks h.bytes v.tiled below in
    let g = block_granular i 0 false h.blocks h.bytes v.tiled below in omega arith

-- An allocation in a valid heap fails with PW_ERR_LIMIT alone, and only if every block is in use or is smaller
-- than the request.
pub alloc-err :
    (h : Heap) (n : ℕ) (e : Error) (i : ℕ)
    → IsValid h
    → alloc h n ≡ err e
    → i < length h.blocks
    → (e ≡ limit) × ((0 < (block_at i h.blocks).used) ⊎ ((block_at i h.blocks).size < n))
alloc-err h n e i v failed below =
    let b = block_bounds i 0 false h.blocks h.bytes v.tiled below in
    elim (dec_lt (2 ^ 32 - 16) n) [
      | yes large ↦ (
        too_large h n e v large failed,
        inr (omega (arith, b, v.based, v.base_granular, v.addressable)),
      )
      | no small ↦
          let (size, fits) = rounded_total n (omega arith) in
          let (out, missing) = exhausted h n size e v fits failed in
          (
            out,
            elim (find_free-none size h.blocks missing i below) [
              | inl taken ↦ inl taken
              | inr short ↦ inr (too_small h n size i v fits below short)
            ],
          )
    ]
