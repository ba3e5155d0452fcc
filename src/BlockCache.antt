-- ===== src/BlockCache.antt =====
-- projects/prospero-win/src/pw_x86_cache.h and pw_x86_cache.c, with the records of pw_x86_block.h that
-- they store: the table of translated blocks, by open addressing on the guest address. The pointers are
-- present; a pointer to an entry is its slot. The host's size_t has 64 bits.
pub mod Probe
pub mod Published
pub mod Laws
pub mod Reset
mod Tests
use ps5_homebrew_lab.Common.{
  ℕ, zero, suc, ◌+◌, ◌-◌, ◌*◌, ◌/◌, ◌%◌, ◌^◌, min, bit_and, bit_xor, Bool, true, false, not, ◌&&◌,
  ◌||◌, Option, none, some, List, [], ◌∷◌, length, get_elem?, set, replicate, ltb, leb, ◌==◌,
  if◌then◌else◌, Outcome, ok, err, fault, ◌>>=◌, ◌>>◌, refuse, precondition, bad_state, limit,
  not_found,
}

pub data ExitKind : Type 0 where
  exit_none direct_jump conditional dynamic : ExitKind

pub record ExitDesc : Type 0 where
  pub kind : ExitKind
  pub chainable : ℕ
  pub target_pc : ℕ
  pub fallthrough_pc : ℕ
  pub target_patch_offset : ℕ
  pub fallthrough_patch_offset : ℕ
  pub target_stub_offset : ℕ
  pub fallthrough_stub_offset : ℕ
  pub target_reconcile_offset : ℕ
  pub fallthrough_reconcile_offset : ℕ
  pub target_reconcile_patch_offset : ℕ
  pub fallthrough_reconcile_patch_offset : ℕ

-- A register number of -1 is `none`.
pub record RegContract : Type 0 where
  pub resident_mask : ℕ
  pub dirty_mask : ℕ
  pub guest_to_host : List (Option ℕ)
  pub host_to_guest : List (Option ℕ)

pub record Block : Type 0 where
  pub source_bytes : ℕ
  pub code_bytes : ℕ
  pub instructions : ℕ
  pub instruction_ends : List ℕ
  pub canonical_entry_offset : ℕ
  pub chain_entry_offset : ℕ
  pub entry_contract : RegContract
  pub exit_contract : RegContract
  pub exit : ExitDesc

-- A NULL pointer is `none`.
pub record LinkSlot : Type 0 where
  pub target_code : Option ℕ
  pub canonical_code : Option ℕ
  pub target_pc : ℕ
  pub source_pc : ℕ
  pub is_linked : ℕ
  pub is_reconciled : ℕ

-- An entry that is in use. A slot whose `used` is 0 is `none` in the table.
pub record Entry : Type 0 where
  pub guest_pc : ℕ
  pub generation : ℕ
  pub code_offset : ℕ
  pub code_bytes : ℕ
  pub source_bytes : ℕ
  pub canonical_entry_offset : ℕ
  pub chain_entry_offset : ℕ
  pub instructions : ℕ
  pub instruction_ends : List ℕ
  pub entry_contract : RegContract
  pub exit_contract : RegContract
  pub exit : ExitDesc
  pub link_slots : LinkSlot × LinkSlot

abbrev pub Slots : Type 0
Slots = List (Option Entry)

pub record Cache : Type 0 where
  pub entries : Slots
  pub capacity : ℕ
  pub generation : ℕ
  pub arena_bytes : ℕ
  pub cursor : ℕ
  pub hits : ℕ
  pub misses : ℕ
  pub publishes : ℕ
  pub resets : ℕ
  pub lookup_probes : ℕ
  pub max_probe : ℕ

-- hash ^= hash >> 16 behind the product, and the slot that the hash names
pub first_slot : ℕ → ℕ → ℕ
first_slot capacity guest_pc =
    let hash = guest_pc * 2654435761 % 2 ^ 32 in bit_xor hash (hash / 2 ^ 16) % capacity

pub record_probes : Cache → ℕ → Cache
record_probes c probes = record c {
  lookup_probes = (c.lookup_probes + probes) % 2 ^ 64;
  max_probe = if ltb c.max_probe probes then probes else c.max_probe;
}

pub init : ℕ → ℕ → ℕ → Outcome Cache
init capacity arena_bytes generation = do
  refuse (capacity == 0 || arena_bytes == 0 || generation == 0) precondition
  ok (record {
    entries = replicate capacity none;
    capacity = capacity;
    generation = generation;
    arena_bytes = arena_bytes;
    cursor = 0;
    hits = 0;
    misses = 0;
    publishes = 0;
    resets = 0;
    lookup_probes = 0;
    max_probe = 0;
  })

-- Where a walk ends, and at which probe: at an entry of the address, at a slot that is not in use, or
-- behind the whole table; `outside` is an access behind the array.
pub data Walk : Type 0 where
  hit vacant : ℕ → ℕ → Walk
  full outside : Walk

abbrev pub matches : ℕ → ℕ → Entry → Bool
matches generation guest_pc e = e.generation == generation && e.guest_pc == guest_pc

-- The `for` loop that lookup and publish share; `left` rounds are left, and `probe` is the number of
-- this one.
pub walk : Slots → ℕ → ℕ → ℕ → ℕ → ℕ → ℕ → Walk
walk entries capacity generation guest_pc slot probe zero = full
walk entries capacity generation guest_pc slot probe (suc left) =
    let rest = walk entries capacity generation guest_pc ((slot + 1) % capacity) (probe + 1) left in
    elim (get_elem? entries slot) [
      | none ↦ outside
      | some candidate ↦ elim candidate [
        | none ↦ vacant slot probe
        | some e ↦ if matches generation guest_pc e then hit slot probe else rest
      ]
    ]

abbrev pub walk_from : Cache → ℕ → Walk
walk_from c guest_pc =
    walk c.entries c.capacity c.generation guest_pc (first_slot c.capacity guest_pc) 1 c.capacity

abbrev pub count_miss : Cache → Cache
count_miss c = record c { misses = (c.misses + 1) % 2 ^ 64 }

abbrev pub count_hit : Cache → Cache
count_hit c = record c { hits = (c.hits + 1) % 2 ^ 64 }

-- The cache with its counters, and the slot that is found.
pub finish_lookup : Cache → Walk → Cache × Outcome ℕ
finish_lookup c (hit slot probe) = (count_hit (record_probes c probe), ok slot)
finish_lookup c (vacant slot probe) = (count_miss (record_probes c probe), err not_found)
finish_lookup c full = (count_miss (record_probes c c.capacity), err not_found)
finish_lookup c outside = (c, fault)

-- pw_x86_cache_lookup_mut, which pw_x86_cache_lookup calls
pub lookup : Cache → ℕ → Cache × Outcome ℕ
lookup c guest_pc =
    if c.generation == 0 then (c, err precondition) else finish_lookup c (walk_from c guest_pc)

-- The array of `room` ends, of which the first `n` are copied and the others are zero.
pub ends : ℕ → ℕ → List ℕ → List ℕ
ends n zero xs = []
ends zero (suc room) xs = 0 ∷ ends zero room xs
ends (suc n) (suc room) [] = 0 ∷ ends n room []
ends (suc n) (suc room) (x ∷ xs) = x ∷ ends n room xs

abbrev pub link_slot : ℕ → ℕ → LinkSlot
link_slot target_pc source_pc = record {
  target_code = none;
  canonical_code = none;
  target_pc = target_pc;
  source_pc = source_pc;
  is_linked = 0;
  is_reconciled = 0;
}

pub new_entry : Cache → ℕ → Block → ℕ → Entry
new_entry c guest_pc b code_offset = record {
  guest_pc = guest_pc;
  generation = c.generation;
  code_offset = code_offset;
  code_bytes = b.code_bytes;
  source_bytes = b.source_bytes;
  canonical_entry_offset = b.canonical_entry_offset;
  chain_entry_offset = b.chain_entry_offset;
  instructions = b.instructions;
  instruction_ends = ends b.instructions 32 b.instruction_ends;
  entry_contract = b.entry_contract;
  exit_contract = b.exit_contract;
  exit = b.exit;
  link_slots = (link_slot b.exit.target_pc guest_pc, link_slot b.exit.fallthrough_pc guest_pc);
}

-- (end + 15) & ~15, and no more than the arena
pub next_cursor : ℕ → ℕ → ℕ
next_cursor arena_bytes end = min (bit_and ((end + 15) % 2 ^ 64) (2 ^ 64 - 16)) arena_bytes

-- The rest of pw_x86_cache_publish, behind the walk. More instructions than the array has room for are
-- copied out of bounds.
pub store_at : Cache → ℕ → Block → ℕ → Walk → Outcome (Cache × ℕ)
store_at c guest_pc b code_offset (hit slot probe) = err bad_state
store_at c guest_pc b code_offset full = err limit
store_at c guest_pc b code_offset outside = fault
store_at c guest_pc b code_offset (vacant slot probe) =
    if ltb 32 b.instructions
    then fault
    else ok (
      record c {
        entries = set c.entries slot (some (new_entry c guest_pc b code_offset));
        cursor = next_cursor c.arena_bytes (code_offset + b.code_bytes);
        publishes = (c.publishes + 1) % 2 ^ 64;
      },
      slot,
    )

pub publish : Cache → ℕ → Block → ℕ → Outcome (Cache × ℕ)
publish c guest_pc b code_offset = do
  refuse (c.generation == 0 || b.source_bytes == 0 || b.code_bytes == 0 || b.instructions == 0)
      precondition
  refuse
      (not (code_offset == c.cursor)
        || ltb c.arena_bytes code_offset
        || ltb (c.arena_bytes - code_offset) b.code_bytes)
      limit
  store_at c guest_pc b code_offset (walk_from c guest_pc)

pub reset : Cache → ℕ → Outcome Cache
reset c generation = do
  refuse (c.capacity == 0 || generation == 0 || generation == c.generation) precondition
  ok (record c {
    entries = replicate c.capacity none;
    generation = generation;
    cursor = 0;
    resets = (c.resets + 1) % 2 ^ 64;
  })
