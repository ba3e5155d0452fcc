-- ===== src/GuestHeap/Realloc.antt =====
-- pw_guest_heap_realloc keeps the heap valid.
use ps5_homebrew_lab.Common.{
  ℕ, zero, suc, ◌-◌, ◌^◌, ◌≤◌, ◌<◌, ◌≡◌, false, List, [], ◌∷◌, length, arith, inl, inr, Bool-cases,
  leb, leb→le, ◌==◌, ok, >>=-eq-ok, min,
}
use ps5_homebrew_lab.GuestHeap.{
  Block, Heap, Memory, validate, rounded, find, block_at, mark, shrink, grow, merge_next, alloc,
  free, move_block, resize, reallocate, realloc, copy,
}
use ps5_homebrew_lab.GuestHeap.Valid.{Tiled, IsValid, validate-IsValid}
use ps5_homebrew_lab.GuestHeap.Resize.{merge_next-Tiled, length-merge_next-le}
use ps5_homebrew_lab.GuestHeap.Calls.{
  find_index_lem, block_bounds, cut-IsValid, alloc-IsValid, free-IsValid, find-eq-ok,
}

pub grow-Tiled :
    (size i : ℕ) (bs : List Block) (e : ℕ)
    → e < 2 ^ 32
    → Tiled 0 false bs e
    → Tiled 0 false (grow size i bs) e
unfolding grow
grow-Tiled size i bs e small t = ground (arith, merge_next-Tiled i 0 false bs e small t)

-- The block that takes its neighbour in keeps its place and its request.
pub block_at-merge_next :
    (i : ℕ) (bs : List Block)
    → i < length bs
    → (i < length (merge_next i bs))
      × ((block_at i (merge_next i bs)).offset ≡ (block_at i bs).offset)
      × ((block_at i (merge_next i bs)).used ≡ (block_at i bs).used)
unfolding merge_next block_at
block_at-merge_next i [] h = absurd (omega arith)
block_at-merge_next zero (b ∷ []) h = ground arith
block_at-merge_next zero (b ∷ n ∷ bs) h = ground arith
block_at-merge_next (suc i) (b ∷ bs) h = ground (arith, block_at-merge_next i bs)

pub block_at-grow :
    (size i : ℕ) (bs : List Block)
    → i < length bs
    → (i < length (grow size i bs))
      × ((block_at i (grow size i bs)).offset ≡ (block_at i bs).offset)
      × ((block_at i (grow size i bs)).used ≡ (block_at i bs).used)
unfolding grow
block_at-grow size i bs h = ground (arith, block_at-merge_next i bs h)

pub length-grow-le : (size i : ℕ) (bs : List Block) → length (grow size i bs) ≤ length bs
unfolding grow
length-grow-le size i bs = ground (arith, length-merge_next-le i bs)

pub move_block-eq-ok :
    (h : Heap) (m : Memory) (address old n : ℕ) (h' : Heap) (m' : Memory) (p : ℕ)
    → move_block h m address old n ≡ ok (h', m', p)
    → (g : Heap) × (alloc h n ≡ ok (g, p))
      × (free g address ≡ ok h')
      × (m' ≡ copy m p address (min old n))
unfolding move_block
move_block-eq-ok h m address old n h' m' p e =
    let ((g, q), got, rest) = >>=-eq-ok (alloc h n) _ e in
    let (h'', freed, done) = >>=-eq-ok (free g address) _ rest in (g, cc, cc, cc)

-- Taking a neighbour in keeps the heap valid.
pub grow-IsValid :
    (h : Heap) (size i : ℕ) → IsValid h → IsValid (record h { blocks = grow size i h.blocks })
grow-IsValid h size i v = record {
  based = v.based;
  base_granular = v.base_granular;
  filled = v.filled;
  bytes_granular = v.bytes_granular;
  addressable = v.addressable;
  counted = omega (arith, v.counted, length-grow-le size i h.blocks);
  tiled = grow-Tiled size i h.blocks h.bytes (omega (arith, v.based, v.addressable)) v.tiled;
}

module _ (h : Heap) (m : Memory) (address n i size : ℕ) (h' : Heap) (m' : Memory) (p : ℕ)
    (v : IsValid h) (below : i < length h.blocks) (live : 0 < (block_at i h.blocks).used)
    (fits : rounded n ≡ ok size) where
  pub grown_used : (block_at i (grow size i h.blocks)).used ≡ 1
  grown_used = omega (
    arith,
    block_at-grow size i h.blocks below,
    block_bounds i 0 false h.blocks h.bytes v.tiled below,
  )

  pub resize-IsValid : resize h m address n i size ≡ ok (h', m', p) → IsValid h'
  unfolding resize
  resize-IsValid e = elim (Bool-cases (leb size (block_at i (grow size i h.blocks)).size)) [
    | inl large ↦
        let done = rw (large, grown_used) at e in
        let shape : h'
            ≡ record h { blocks = shrink h.capacity i size (mark 1 n i (grow size i h.blocks)) } =
          cc in
        rw shape (
          cut-IsValid h n size i (grow size i h.blocks) v
            (grow-Tiled size i h.blocks h.bytes (omega (arith, v.based, v.addressable)) v.tiled)
            (omega (arith, v.counted, length-grow-le size i h.blocks))
            (block_at-grow size i h.blocks below).0 fits (leb→le _ _ large))
    | inr small ↦
        let moved = rw small at e in
        let (g, _, freed, _) =
          move_block-eq-ok (record h { blocks = grow size i h.blocks }) m address
            (block_at i h.blocks).requested n h' m' p moved in
        free-IsValid g address h' freed
  ]

reallocate-IsValid :
    (h : Heap) (m : Memory) (address n : ℕ) (h' : Heap) (m' : Memory) (p : ℕ)
    → IsValid h
    → reallocate h m address n ≡ ok (h', m', p)
    → IsValid h'
unfolding reallocate
reallocate-IsValid h m address n h' m' p v e =
    let (i, found, rest) = >>=-eq-ok (find h address) _ e in
    let (_, live, below) =
      find_index_lem (address - h.base) h.blocks i (find-eq-ok h address i found).1 in
    elim (Bool-cases (n == 0)) [
      | inl none_left ↦
          let (g, freed, done) = >>=-eq-ok (free h address) _ (rw none_left at rest) in
          let same : g ≡ h' = cc in free-IsValid h address h' (rw (← same) freed)
      | inr some_left ↦
          let (size, fits, done) = >>=-eq-ok (rounded n) _ (rw some_left at rest) in
          resize-IsValid h m address n i size h' m' p v below live fits done
    ]

pub realloc-IsValid :
    (h : Heap) (m : Memory) (address n : ℕ) (h' : Heap) (m' : Memory) (p : ℕ)
    → realloc h m address n ≡ ok (h', m', p)
    → IsValid h'
unfolding realloc
realloc-IsValid h m address n h' m' p e =
    let (_, checked, rest) = >>=-eq-ok (validate h) _ e in
    let v = (validate-IsValid h).0 checked in
    elim (Bool-cases (address == 0)) [
      | inl null ↦
          let ((g, q), got, done) = >>=-eq-ok (alloc h n) _ (rw null at rest) in
          let same : g ≡ h' = cc in rw (← same) (alloc-IsValid h n g q got)
      | inr present ↦ reallocate-IsValid h m address n h' m' p v (rw present at rest)
    ]
