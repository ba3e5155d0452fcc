-- ===== src/GuestHeap.antt =====
-- projects/prospero-win/src/pw_guest_heap.h and pw_guest_heap.c: the allocator of guest memory.
-- `blocks` holds the live entries blocks[0 .. count) of the metadata array, so `count` is its
-- length; the slots behind it are never read. Pointers to the heap and to the results are present.
-- A call that fails leaves the heap as it was. Guest memory is a function from addresses to bytes.
pub mod Valid
pub mod Resize
pub mod Calls
pub mod Realloc
pub mod Live
pub mod Laws
pub mod Moved
pub mod Contents
mod Tests
use mathlib.Core.Option
use ps5_homebrew_lab.Common.{
  ℕ, zero, suc, ◌+◌, ◌-◌, ◌*◌, ◌%◌, ◌^◌, min, bit_and, Bool, false, not, ◌&&◌, ◌||◌, Option, none,
  some, List, [], ◌∷◌, length, ltb, leb, ◌==◌, if◌then◌else◌, Outcome, ok, err, ◌>>=◌, ◌>>◌, refuse,
  precondition, limit, bad_state,
}

pub record Block : Type 0 where
  pub offset : ℕ
  pub size : ℕ
  pub requested : ℕ
  pub used : ℕ

pub record Heap : Type 0 where
  pub base : ℕ
  pub bytes : ℕ
  pub capacity : ℕ
  pub blocks : List Block

abbrev pub Memory : Type 0
Memory = ℕ → ℕ

abbrev pub is_free : Block → Bool
is_free b = b.used == 0

-- One round of the loop of pw_guest_heap_validate; `after_free` is `i && !blocks[i-1].used`.
abbrev pub bad_block : ℕ → Bool → Block → Bool
bad_block offset after_free b =
    not (b.offset == offset)
    || b.size == 0
    || not (bit_and b.size 15 == 0)
    || ltb 1 b.used
    || ltb b.size b.requested
    || (is_free b && not (b.requested == 0))
    || (after_free && is_free b)

pub validate_blocks : ℕ → ℕ → Bool → List Block → Bool
validate_blocks bytes offset after_free [] = offset == bytes
validate_blocks bytes offset after_free (b ∷ bs) =
    not (bad_block offset after_free b)
    && not (ltb bytes (offset + b.size))
    && validate_blocks bytes (offset + b.size) (is_free b) bs

abbrev pub bad_span : ℕ → ℕ → Bool
bad_span base bytes =
    base == 0
    || not (bit_and base 15 == 0)
    || bytes == 0
    || not (bit_and bytes 15 == 0)
    || ltb (2 ^ 32) (base + bytes)

pub validate : Heap → Outcome (Unit {0})
validate h = do
  refuse (bad_span h.base h.bytes) bad_state
  refuse (length h.blocks == 0 || ltb h.capacity (length h.blocks)) bad_state
  refuse (not (validate_blocks h.bytes 0 false h.blocks)) bad_state

pub init : ℕ → ℕ → ℕ → Outcome Heap
init base bytes capacity = do
  refuse (capacity == 0 || bad_span base bytes) precondition
  ok (record {
    base = base;
    bytes = bytes;
    capacity = capacity;
    blocks = record { offset = 0; size = bytes; requested = 0; used = 0 } ∷ [];
  })

pub rounded : ℕ → Outcome ℕ
rounded n = do
  refuse (ltb (2 ^ 32 - 1 - 15) n) limit
  ok (if n == 0 then 16 else bit_and (n + 15) (2 ^ 32 - 16))

-- remove_block is the dropped tail cell of the match.
pub merge_next : ℕ → List Block → List Block
merge_next zero (b ∷ n ∷ bs) =
    if is_free n then record b { size = (b.size + n.size) % 2 ^ 32 } ∷ bs else b ∷ n ∷ bs
merge_next zero bs = bs
merge_next (suc i) [] = []
merge_next (suc i) (b ∷ bs) = b ∷ merge_next i bs

-- The last branch of `shrink`: a new free entry if the metadata array has a slot.
abbrev pub split_block : Bool → ℕ → Block → List Block → List Block
split_block room size b bs =
    if room
    then record b { size = size }
      ∷ record {
        offset = (b.offset + size) % 2 ^ 32;
        size = (b.size + 2 ^ 32 - size) % 2 ^ 32;
        requested = 0;
        used = 0;
      }
      ∷ bs
    else b ∷ bs

pub shrink_at : Bool → ℕ → ℕ → List Block → List Block
shrink_at room size i [] = []
shrink_at room size zero (b ∷ []) = if size == b.size then b ∷ [] else split_block room size b []
shrink_at room size zero (b ∷ n ∷ bs) =
    let tail = (b.size + 2 ^ 32 - size) % 2 ^ 32 in
    if size == b.size
    then b ∷ n ∷ bs
    else if is_free n
    then record b { size = size }
      ∷ record n { offset = (n.offset + 2 ^ 32 - tail) % 2 ^ 32; size = (n.size + tail) % 2 ^ 32 }
      ∷ bs
    else split_block room size b (n ∷ bs)
shrink_at room size (suc i) (b ∷ bs) = b ∷ shrink_at room size i bs

pub shrink : ℕ → ℕ → ℕ → List Block → List Block
shrink capacity i size bs = shrink_at (ltb (length bs) capacity) size i bs

pub find_index : ℕ → List Block → Option ℕ
find_index o [] = none
find_index o (b ∷ bs) =
    if b.offset == o && not (is_free b) then some 0 else Option.map suc (find_index o bs)

pub find : Heap → ℕ → Outcome ℕ
find h address = do
  refuse (ltb address h.base) precondition
  elim (find_index (address - h.base) h.blocks) [ none ↦ err precondition | some i ↦ ok i ]

abbrev pub no_block : Block
no_block = record { offset = 0; size = 0; requested = 0; used = 0 }

-- h->blocks[i], for an index below the count.
pub block_at : ℕ → List Block → Block
block_at i [] = no_block
block_at zero (b ∷ bs) = b
block_at (suc i) (b ∷ bs) = block_at i bs

-- b->used = used; b->requested = requested
pub mark : ℕ → ℕ → ℕ → List Block → List Block
mark used requested i [] = []
mark used requested zero (b ∷ bs) = record b { requested = requested; used = used } ∷ bs
mark used requested (suc i) (b ∷ bs) = b ∷ mark used requested i bs

pub query : Heap → ℕ → Outcome ℕ
query h address = do validate h; i ← find h address; ok (block_at i h.blocks).requested

-- The first free block that is large enough.
pub find_free : ℕ → List Block → Option ℕ
find_free size [] = none
find_free size (b ∷ bs) =
    if not (is_free b) || ltb b.size size then Option.map suc (find_free size bs) else some 0

pub alloc : Heap → ℕ → Outcome (Heap × ℕ)
alloc h n = do
  validate h
  size ← rounded n
  elim (find_free size h.blocks) [
    | none ↦ err limit
    | some i ↦ ok (
      record h { blocks = shrink h.capacity i size (mark 1 n i h.blocks) },
      (h.base + (block_at i h.blocks).offset) % 2 ^ 32,
    )
  ]

-- if(i && !h->blocks[i-1].used)merge_next(h,i-1);
pub merge_previous : ℕ → List Block → List Block
merge_previous zero bs = bs
merge_previous (suc i) bs = if is_free (block_at i bs) then merge_next i bs else bs

-- The rest of pw_guest_heap_free, for an address that is not null.
pub release : Heap → ℕ → Outcome Heap
release h address = do
  i ← find h address
  ok (record h { blocks = merge_previous i (merge_next i (mark 0 0 i h.blocks)) })

pub free : Heap → ℕ → Outcome Heap
free h address = do validate h; if address == 0 then ok h else release h address

-- memset and memcpy between spans that do not overlap.
pub fill : Memory → ℕ → ℕ → Memory
fill m p n a = if leb p a && ltb a (p + n) then 0 else m a

pub copy : Memory → ℕ → ℕ → ℕ → Memory
copy m p source n a = if leb p a && ltb a (p + n) then m (source + (a - p)) else m a

pub calloc : Heap → Memory → ℕ → ℕ → Outcome (Heap × Memory × ℕ)
calloc h m count bytes = do
  refuse (ltb (2 ^ 32 - 1) (count * bytes)) limit
  (h', p) ← alloc h (count * bytes)
  ok (h', fill m p (count * bytes), p)

-- The branch of pw_guest_heap_realloc that takes a new block.
pub move_block : Heap → Memory → ℕ → ℕ → ℕ → Outcome (Heap × Memory × ℕ)
move_block h m address old n = do
  (h', p) ← alloc h n
  h'' ← free h' address
  ok (h'', copy m p address (min old n), p)

-- The list before the test `size <= b->size`: a free neighbour is taken in where that is enough.
pub grow : ℕ → ℕ → List Block → List Block
grow size i bs =
    let b = block_at i bs in
    let n = block_at (suc i) bs in
    if ltb b.size size && ltb (suc i) (length bs) && is_free n && leb size (b.size + n.size)
    then merge_next i bs
    else bs

pub resize : Heap → Memory → ℕ → ℕ → ℕ → ℕ → Outcome (Heap × Memory × ℕ)
resize h m address n i size =
    let old = (block_at i h.blocks).requested in
    let grown = grow size i h.blocks in
    let b = block_at i grown in
    if leb size b.size
    then ok (record h { blocks = shrink h.capacity i size (mark b.used n i grown) }, m, address)
    else move_block (record h { blocks = grown }) m address old n

-- The rest of pw_guest_heap_realloc, for an address that is not null.
pub reallocate : Heap → Memory → ℕ → ℕ → Outcome (Heap × Memory × ℕ)
reallocate h m address n = do
  i ← find h address
  if n == 0
      then (do h' ← free h address; ok (h', m, 0))
      else (do size ← rounded n; resize h m address n i size)

pub realloc : Heap → Memory → ℕ → ℕ → Outcome (Heap × Memory × ℕ)
realloc h m address n = do
  validate h
  if address == 0 then (do (h', p) ← alloc h n; ok (h', m, p)) else reallocate h m address n
