-- ===== src/GuestHeap/Valid.antt =====
-- What pw_guest_heap_validate checks, as a predicate, and the operations that keep it.
use ps5_homebrew_lab.Common.{
  ℕ, ◌+◌, ◌%◌, ◌^◌, ◌≤◌, ◌<◌, ◌≡◌, ◌↔◌, ◌⊎◌, Bool, true, false, List, [], ◌∷◌, length, ok, arith,
}
use ps5_homebrew_lab.Common.Bits.{bit_and_low}
use ps5_homebrew_lab.GuestHeap.{Block, Heap, is_free, validate_blocks, validate, init}

-- A block at `offset`; a free one holds no request and does not follow a free one.
pub record Placed (offset : ℕ) (after_free : Bool) (b : Block) : Type 0 where
  pub at_offset : b.offset ≡ offset
  pub nonempty : 0 < b.size
  pub granular : b.size % 16 ≡ 0
  pub flagged : b.used ≤ 1
  pub roomy : b.requested ≤ b.size
  pub idle : (b.used ≡ 1) ⊎ (b.requested ≡ 0)
  pub coalesced : (after_free ≡ false) ⊎ (b.used ≡ 1)

-- The blocks cover the offsets from `o` to `e` with no gap.
abbrev pub Tiled : ℕ → Bool → List Block → ℕ → Type 0
Tiled o f [] e = o ≡ e
Tiled o f (b ∷ bs) e = Placed o f b × Tiled (o + b.size) (is_free b) bs e

pub record IsValid (h : Heap) : Type 0 where
  pub based : 0 < h.base
  pub base_granular : h.base % 16 ≡ 0
  pub filled : 0 < h.bytes
  pub bytes_granular : h.bytes % 16 ≡ 0
  pub addressable : h.base + h.bytes ≤ 2 ^ 32
  pub counted : length h.blocks ≤ h.capacity
  pub tiled : Tiled 0 false h.blocks h.bytes

pub Tiled-le : (o : ℕ) (f : Bool) (bs : List Block) (e : ℕ) → Tiled o f bs e → o ≤ e
Tiled-le o f [] e t = omega arith
Tiled-le o f (b ∷ bs) e t = omega (arith, Tiled-le (o + b.size) (is_free b) bs e t.1)

validate_blocks_sound :
    (bytes o : ℕ) (f : Bool) (bs : List Block)
    → validate_blocks bytes o f bs ≡ true
    → Tiled o f bs bytes
unfolding validate_blocks
validate_blocks_sound bytes o f [] h = ground arith
validate_blocks_sound bytes o f (b ∷ bs) h =
    ground (arith, bit_and_low 4 b.size, validate_blocks_sound bytes (o + b.size) (is_free b) bs)

validate_blocks_complete :
    (bytes o : ℕ) (f : Bool) (bs : List Block)
    → Tiled o f bs bytes
    → validate_blocks bytes o f bs ≡ true
unfolding validate_blocks
validate_blocks_complete bytes o f [] h = ground arith
validate_blocks_complete bytes o f (b ∷ bs) h = ground (
  arith,
  bit_and_low 4 b.size,
  Tiled-le (o + b.size) (is_free b) bs bytes h.1,
  validate_blocks_complete bytes (o + b.size) (is_free b) bs h.1,
)

Tiled-ne-nil : (o : ℕ) (f : Bool) (bs : List Block) (e : ℕ) → Tiled o f bs e → o < e → 0 < length bs
Tiled-ne-nil o f [] e t h = omega arith
Tiled-ne-nil o f (b ∷ bs) e t h = omega arith

validate_sound : (h : Heap) → validate h ≡ ok tt → IsValid h
unfolding validate
validate_sound h p = ground (
  arith,
  bit_and_low 4 h.base,
  bit_and_low 4 h.bytes,
  validate_blocks_sound h.bytes 0 false h.blocks,
)

validate_complete : (h : Heap) → IsValid h → validate h ≡ ok tt
unfolding validate
validate_complete h v = ground (
  arith,
  bit_and_low 4 h.base,
  bit_and_low 4 h.bytes,
  Tiled-ne-nil 0 false h.blocks h.bytes v.tiled v.filled,
  validate_blocks_complete h.bytes 0 false h.blocks v.tiled,
)

-- The check passes exactly on the heaps that are valid.
pub validate-IsValid : (h : Heap) → (validate h ≡ ok tt) ↔ IsValid h
validate-IsValid h = (validate_sound h, validate_complete h)

-- A heap that pw_guest_heap_init sets up is valid.
pub init-IsValid :
    (base bytes capacity : ℕ) (h : Heap) → init base bytes capacity ≡ ok h → IsValid h
unfolding init
init-IsValid base bytes capacity h e = ground (arith, bit_and_low 4 base, bit_and_low 4 bytes)
