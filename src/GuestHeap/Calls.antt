-- ===== src/GuestHeap/Calls.antt =====
-- pw_guest_heap_alloc, calloc and free keep the heap valid.
use ps5_homebrew_lab.Common.{
  ℕ, zero, suc, ◌+◌, ◌-◌, ◌*◌, ◌%◌, ◌^◌, ◌≤◌, ◌<◌, ◌≡◌, Bool, false, some, List, [], ◌∷◌, length,
  arith, inl, inr, Option-cases, ltb, refl, ap, ok, limit, >>=-eq-ok, refuse,
}
use ps5_homebrew_lab.Common.Bits.{bit_and_high}
use ps5_homebrew_lab.GuestHeap.{
  Block, Heap, Memory, is_free, validate, rounded, find_index, find, find_free, block_at, mark,
  shrink, merge_next, merge_previous, alloc, release, free, calloc,
}
use ps5_homebrew_lab.GuestHeap.Valid.{Tiled, IsValid, validate-IsValid, Tiled-le}
use ps5_homebrew_lab.GuestHeap.Resize.{
  mark_used-Tiled, shrink_at-Tiled, release-Tiled, length-mark, length-shrink-le, length-release-le,
}

pub find_free_lem :
    (size : ℕ) (bs : List Block) (i : ℕ)
    → find_free size bs ≡ some i
    → ((block_at i bs).used ≡ 0) × (size ≤ (block_at i bs).size) × (i < length bs)
unfolding find_free block_at
find_free_lem size [] i e = cc
find_free_lem size (b ∷ bs) zero e = ground arith
find_free_lem size (b ∷ bs) (suc i) e = ground (arith, find_free_lem size bs i)

pub find_index_lem :
    (o : ℕ) (bs : List Block) (i : ℕ)
    → find_index o bs ≡ some i
    → ((block_at i bs).offset ≡ o) × (0 < (block_at i bs).used) × (i < length bs)
unfolding find_index block_at
find_index_lem o [] i e = cc
find_index_lem o (b ∷ bs) zero e = ground arith
find_index_lem o (b ∷ bs) (suc i) e = ground (arith, find_index_lem o bs i)

-- A request is rounded to a positive multiple of 16, and by less than a granule unless it is 0.
pub rounded_lem :
    (n size : ℕ)
    → rounded n ≡ ok size
    → (0 < size) × (size % 16 ≡ 0) × (n ≤ size) × (size ≤ n + 16) × (size < 2 ^ 32)
unfolding rounded
rounded_lem n size e = ground (arith, bit_and_high 4 32 (n + 15))

-- What a successful allocation went through.
pub alloc-eq-ok :
    (h : Heap) (n : ℕ) (h' : Heap) (p : ℕ)
    → alloc h n ≡ ok (h', p)
    → (size : ℕ) × (i : ℕ) × IsValid h
      × (rounded n ≡ ok size)
      × (find_free size h.blocks ≡ some i)
      × (h' ≡ record h { blocks = shrink h.capacity i size (mark 1 n i h.blocks) })
      × (p ≡ (h.base + (block_at i h.blocks).offset) % 2 ^ 32)
unfolding alloc
alloc-eq-ok h n h' p e =
    let (u, checked, e₁) = >>=-eq-ok (validate h) _ e in
    let (size, fits, e₂) = >>=-eq-ok (rounded n) _ e₁ in
    elim (Option-cases (find_free size h.blocks)) [
      | inl missing ↦ absurd (let bad = rw missing at e₂ in cc)
      | inr (i, found) ↦
          let done = rw found at e₂ in
          (size, i, (validate-IsValid h).0 checked, fits, found, cc, cc)
    ]

pub block_at-mark :
    (used n i : ℕ) (bs : List Block)
    → i < length bs
    → block_at i (mark used n i bs) ≡ record (block_at i bs) { requested = n; used = used }
unfolding block_at mark
block_at-mark used n i [] h = absurd (omega arith)
block_at-mark used n zero (b ∷ bs) h = refl
block_at-mark used n (suc i) (b ∷ bs) h = block_at-mark used n i bs (omega arith)

-- A block that is large enough is taken for `n` bytes, and its tail given back.
pub cut-IsValid :
    (h : Heap) (n size i : ℕ) (bs : List Block)
    → IsValid h
    → Tiled 0 false bs h.bytes
    → length bs ≤ h.capacity
    → i < length bs
    → rounded n ≡ ok size
    → size ≤ (block_at i bs).size
    → IsValid (record h { blocks = shrink h.capacity i size (mark 1 n i bs) })
unfolding shrink
cut-IsValid h n size i bs v t room below fits large =
    let r = rounded_lem n size fits in
    let b = block_at-mark 1 n i bs below in
    let small : h.bytes < 2 ^ 32 = omega (arith, v.based, v.addressable) in
    record {
      based = v.based;
      base_granular = v.base_granular;
      filled = v.filled;
      bytes_granular = v.bytes_granular;
      addressable = v.addressable;
      counted =
          length-shrink-le h.capacity size i (mark 1 n i bs) (omega (arith, length-mark 1 n i bs));
      tiled =
          shrink_at-Tiled _ size i 0 false (mark 1 n i bs) h.bytes small r.0 r.1
            (mark_used-Tiled n i 0 false bs h.bytes t (omega (arith, r.2)))
            (ap (λ (x : Block). x.used) b) (omega (arith, r.2, ap (λ (x : Block). x.requested) b))
            (omega (arith, ap (λ (x : Block). x.size) b));
    }

pub alloc-IsValid : (h : Heap) (n : ℕ) (h' : Heap) (p : ℕ) → alloc h n ≡ ok (h', p) → IsValid h'
alloc-IsValid h n h' p e =
    let (size, i, v, fits, found, shape, _) = alloc-eq-ok h n h' p e in
    let (_, large, below) = find_free_lem size h.blocks i found in
    rw shape (cut-IsValid h n size i h.blocks v v.tiled v.counted below fits large)

pub find-eq-ok :
    (h : Heap) (address i : ℕ)
    → find h address ≡ ok i
    → (h.base ≤ address) × (find_index (address - h.base) h.blocks ≡ some i)
unfolding find
find-eq-ok h address i e = ground arith

pub release-IsValid :
    (h : Heap) (address : ℕ) (h' : Heap) → IsValid h → release h address ≡ ok h' → IsValid h'
unfolding release
release-IsValid h address h' v e =
    let (i, _, done) = >>=-eq-ok (find h address) _ e in
    let shape : h' ≡ record h { blocks = merge_previous i (merge_next i (mark 0 0 i h.blocks)) } =
      cc in
    let small : h.bytes < 2 ^ 32 = omega (arith, v.based, v.addressable) in
    rw shape (record {
      based = v.based;
      base_granular = v.base_granular;
      filled = v.filled;
      bytes_granular = v.bytes_granular;
      addressable = v.addressable;
      counted = omega (arith, v.counted, length-release-le i h.blocks);
      tiled = release-Tiled i 0 h.blocks h.bytes small false v.tiled (inl refl);
    })

pub free-IsValid : (h : Heap) (address : ℕ) (h' : Heap) → free h address ≡ ok h' → IsValid h'
unfolding free
free-IsValid h address h' e =
    let (_, checked, rest) = >>=-eq-ok (validate h) _ e in
    let v = (validate-IsValid h).0 checked in ground (arith, v, release-IsValid h address h' v)

pub calloc-IsValid :
    (h : Heap) (m : Memory) (count bytes : ℕ) (h' : Heap) (m' : Memory) (p : ℕ)
    → calloc h m count bytes ≡ ok (h', m', p)
    → IsValid h'
unfolding calloc
calloc-IsValid h m count bytes h' m' p e =
    let (_, _, rest) = >>=-eq-ok (refuse (ltb (2 ^ 32 - 1) (count * bytes)) limit) _ e in
    let ((g, q), got, done) = >>=-eq-ok (alloc h (count * bytes)) _ rest in
    let same : h' ≡ g = cc in rw same (alloc-IsValid h (count * bytes) g q got)

-- Where a block of a tiling lies.
pub block_bounds :
    (i o : ℕ) (f : Bool) (bs : List Block) (e : ℕ)
    → Tiled o f bs e
    → i < length bs
    → ((block_at i bs).used ≤ 1)
      × (o ≤ (block_at i bs).offset)
      × ((block_at i bs).offset + (block_at i bs).size ≤ e)
      × ((block_at i bs).offset % 16 ≡ o % 16)
      × (0 < (block_at i bs).size)
      × ((block_at i bs).requested ≤ (block_at i bs).size)
unfolding block_at
block_bounds i o f [] e t h = absurd (omega arith)
block_bounds zero o f (b ∷ bs) e t h = omega (arith, Tiled-le (o + b.size) (is_free b) bs e t.1)
block_bounds (suc i) o f (b ∷ bs) e t h =
    omega (arith, block_bounds i (o + b.size) (is_free b) bs e t.1)
