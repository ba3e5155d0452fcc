-- ===== src/GuestHeap/Resize.antt =====
-- merge_next, shrink and the marking of a block keep the blocks tiled.
use ps5_homebrew_lab.Common.{
  ℕ, zero, suc, ◌+◌, ◌%◌, ◌^◌, ◌≤◌, ◌<◌, ◌≡◌, ◌⊎◌, Bool, true, false, List, [], ◌∷◌, length, arith,
  inl, inr, Bool-cases, flag, ltb, ap, refl,
}
use ps5_homebrew_lab.GuestHeap.{
  Block, is_free, merge_next, merge_previous, shrink_at, block_at, mark, shrink,
}
use ps5_homebrew_lab.GuestHeap.Valid.{Placed, Tiled, Tiled-le}

-- Behind a block that is in use any list may follow that could follow a free one.
pub Tiled-after_used :
    (o : ℕ) (f : Bool) (bs : List Block) (e : ℕ) → Tiled o f bs e → Tiled o false bs e
Tiled-after_used o f [] e t = t
Tiled-after_used o f (b ∷ bs) e t = ground arith

Tiled-after_free : (o : ℕ) (f : Bool) (bs : List Block) (e : ℕ) → Tiled o true bs e → Tiled o f bs e
Tiled-after_free o f [] e t = t
Tiled-after_free o f (b ∷ bs) e t = ground arith

-- The first block may have become free: the neighbour behind it is taken in.
pub merge_head-Tiled :
    (o : ℕ) (f : Bool) (b : Block) (bs : List Block) (e : ℕ)
    → e < 2 ^ 32
    → Placed o f b
    → Tiled (o + b.size) false bs e
    → Tiled o f (merge_next 0 (b ∷ bs)) e
unfolding merge_next
merge_head-Tiled o f b [] e small p t = (p, t)
merge_head-Tiled o f b (n ∷ bs) e small p t = ground (
  arith,
  Tiled-le (o + b.size + n.size) (is_free n) bs e t.1,
  Tiled-after_free (o + b.size + n.size) (is_free b) bs e,
)

pub merge_next-Tiled :
    (i o : ℕ) (f : Bool) (bs : List Block) (e : ℕ)
    → e < 2 ^ 32
    → Tiled o f bs e
    → Tiled o f (merge_next i bs) e
unfolding merge_next
merge_next-Tiled zero o f [] e small t = t
merge_next-Tiled zero o f (b ∷ bs) e small t =
    merge_head-Tiled o f b bs e small t.0 (Tiled-after_used (o + b.size) (is_free b) bs e t.1)
merge_next-Tiled (suc i) o f [] e small t = t
merge_next-Tiled (suc i) o f (b ∷ bs) e small t =
    (t.0, merge_next-Tiled i (o + b.size) (is_free b) bs e small t.1)

pub mark_used-Tiled :
    (n i o : ℕ) (f : Bool) (bs : List Block) (e : ℕ)
    → Tiled o f bs e
    → n ≤ (block_at i bs).size
    → Tiled o f (mark 1 n i bs) e
unfolding mark block_at
mark_used-Tiled n i o f [] e t h = t
mark_used-Tiled n zero o f (b ∷ bs) e t h =
    (ground arith, Tiled-after_used (o + b.size) (is_free b) bs e t.1)
mark_used-Tiled n (suc i) o f (b ∷ bs) e t h =
    (t.0, mark_used-Tiled n i (o + b.size) (is_free b) bs e t.1 h)

-- A block in use is cut down to `size` bytes.
pub shrink_at-Tiled :
    (room : Bool) (size i o : ℕ) (f : Bool) (bs : List Block) (e : ℕ)
    → e < 2 ^ 32
    → 0 < size
    → size % 16 ≡ 0
    → Tiled o f bs e
    → (block_at i bs).used ≡ 1
    → (block_at i bs).requested ≤ size
    → size ≤ (block_at i bs).size
    → Tiled o f (shrink_at room size i bs) e
unfolding shrink_at block_at
shrink_at-Tiled room size i o f [] e small p q t u r s = t
shrink_at-Tiled room size zero o f (b ∷ []) e small p q t u r s = ground arith
shrink_at-Tiled room size zero o f (b ∷ n ∷ bs) e small p q t u r s =
    ground (arith, Tiled-le (o + b.size + n.size) (is_free n) bs e t.1.1)
shrink_at-Tiled room size (suc i) o f (b ∷ bs) e small p q t u r s =
    (t.0, shrink_at-Tiled room size i (o + b.size) (is_free b) bs e small p q t.1 u r s)

-- The block that pw_guest_heap_free clears, when none stands before it or that one is in use.
release_head-Tiled :
    (o : ℕ) (f : Bool) (bs : List Block) (e : ℕ)
    → e < 2 ^ 32
    → Tiled o f bs e
    → Tiled o false (merge_next 0 (mark 0 0 0 bs)) e
unfolding merge_next mark
release_head-Tiled o f [] e small t = t
release_head-Tiled o f (b ∷ bs) e small t =
    merge_head-Tiled o false (record b { requested = 0; used = 0 }) bs e small (ground arith)
      (Tiled-after_used (o + b.size) (is_free b) bs e t.1)

-- Clearing a block and merging it with its free neighbours.
pub release-Tiled :
    (i o : ℕ) (bs : List Block) (e : ℕ)
    → e < 2 ^ 32
    → (f : Bool) → Tiled o f bs e
    → (f ≡ false) ⊎ (0 < i)
    → Tiled o f (merge_previous i (merge_next i (mark 0 0 i bs))) e
unfolding merge_previous merge_next mark block_at
release-Tiled zero o bs e small f t h = ground (arith, release_head-Tiled o f bs e small t)
release-Tiled (suc zero) o [] e small f t h = t
release-Tiled (suc zero) o (a ∷ bs) e small f t h =
    let xs = merge_next 0 (mark 0 0 0 bs) in
    let tail = release_head-Tiled (o + a.size) (is_free a) bs e small t.1 in
    elim (Bool-cases (is_free a)) [
      | inl free ↦ rw free (merge_head-Tiled o f a xs e small t.0 tail)
      | inr used ↦ rw used (t.0, rw used tail)
    ]
release-Tiled (suc (suc i)) o [] e small f t h = t
release-Tiled (suc (suc i)) o (a ∷ bs) e small f t h =
    ground (arith, release-Tiled (suc i) (o + a.size) bs e small (is_free a) t.1)

pub length-mark : (used n i : ℕ) (bs : List Block) → length (mark used n i bs) ≡ length bs
unfolding mark
length-mark used n i [] = refl
length-mark used n zero (b ∷ bs) = refl
length-mark used n (suc i) (b ∷ bs) = ap suc (length-mark used n i bs)

pub length-merge_next-le : (i : ℕ) (bs : List Block) → length (merge_next i bs) ≤ length bs
unfolding merge_next
length-merge_next-le zero [] = omega arith
length-merge_next-le zero (b ∷ []) = omega arith
length-merge_next-le zero (b ∷ n ∷ bs) = ground arith
length-merge_next-le (suc i) [] = omega arith
length-merge_next-le (suc i) (b ∷ bs) = omega (arith, length-merge_next-le i bs)

length-merge_previous-le : (i : ℕ) (bs : List Block) → length (merge_previous i bs) ≤ length bs
unfolding merge_previous
length-merge_previous-le zero bs = omega arith
length-merge_previous-le (suc i) bs = ground (arith, length-merge_next-le i bs)

-- Only a block that is split off needs a new slot.
pub length-shrink_at-le :
    (room : Bool) (size i : ℕ) (bs : List Block)
    → length (shrink_at room size i bs) ≤ length bs + flag room
unfolding shrink_at
length-shrink_at-le room size i [] = omega arith
length-shrink_at-le room size zero (b ∷ []) = ground arith
length-shrink_at-le room size zero (b ∷ n ∷ bs) = ground arith
length-shrink_at-le room size (suc i) (b ∷ bs) = omega (arith, length-shrink_at-le room size i bs)

-- The metadata array is never outgrown.
pub length-shrink-le :
    (capacity size i : ℕ) (bs : List Block)
    → length bs ≤ capacity
    → length (shrink capacity i size bs) ≤ capacity
unfolding shrink
length-shrink-le capacity size i bs h =
    ground (arith, length-shrink_at-le (ltb (length bs) capacity) size i bs)

pub length-release-le :
    (i : ℕ) (bs : List Block) → length (merge_previous i (merge_next i (mark 0 0 i bs))) ≤ length bs
length-release-le i bs = omega (
  arith,
  length-merge_previous-le i (merge_next i (mark 0 0 i bs)),
  length-merge_next-le i (mark 0 0 i bs),
  length-mark 0 0 i bs,
)
