-- ===== src/BlockCache/Published.antt =====
-- The entry that pw_x86_cache_publish makes of a block.
use ps5_homebrew_lab.Common.{
  ℕ, zero, suc, ◌≡◌, ◌≤◌, ◌<◌, true, none, some, List, [], ◌∷◌, get_elem?, arith, refl,
}
use ps5_homebrew_lab.BlockCache.{Cache, Entry, LinkSlot, Block, ends, matches, new_entry}

-- A link slot that leads from one address to another, and to no code yet.
pub record IsUnlinked (target_pc source_pc : ℕ) (l : LinkSlot) : Type 0 where
  pub target : l.target_pc ≡ target_pc
  pub source : l.source_pc ≡ source_pc
  pub unlinked : l.is_linked ≡ 0
  pub unreconciled : l.is_reconciled ≡ 0
  pub no_target_code : l.target_code ≡ none
  pub no_canonical_code : l.canonical_code ≡ none

-- The entry describes the block, whose code stands at the offset in the arena.
pub record IsPublished (c : Cache) (pc : ℕ) (b : Block) (offset : ℕ) (e : Entry) : Type 0 where
  pub address : e.guest_pc ≡ pc
  pub current : e.generation ≡ c.generation
  pub code : e.code_offset ≡ offset
  pub code_length : e.code_bytes ≡ b.code_bytes
  pub source_length : e.source_bytes ≡ b.source_bytes
  pub canonical_entry : e.canonical_entry_offset ≡ b.canonical_entry_offset
  pub chain_entry : e.chain_entry_offset ≡ b.chain_entry_offset
  pub count : e.instructions ≡ b.instructions
  pub ends_copied :
      (i end : ℕ)
      → i < b.instructions
      → get_elem? b.instruction_ends i ≡ some end
      → get_elem? e.instruction_ends i ≡ some end
  pub entry_kept : e.entry_contract ≡ b.entry_contract
  pub exit_kept : e.exit_contract ≡ b.exit_contract
  pub same_exit : e.exit ≡ b.exit
  pub taken_link : IsUnlinked b.exit.target_pc pc e.link_slots.0
  pub fallthrough_link : IsUnlinked b.exit.fallthrough_pc pc e.link_slots.1

get_elem?-ends :
    (n room : ℕ) (xs : List ℕ) (i x : ℕ)
    → n ≤ room
    → i < n
    → get_elem? xs i ≡ some x
    → get_elem? (ends n room xs) i ≡ some x
unfolding ends
get_elem?-ends zero room xs i x h k e = absurd (omega arith)
get_elem?-ends (suc n) zero xs i x h k e = absurd (omega arith)
get_elem?-ends (suc n) (suc room) [] i x h k e = cc
get_elem?-ends (suc n) (suc room) (y ∷ ys) zero x h k e = e
get_elem?-ends (suc n) (suc room) (y ∷ ys) (suc i) x h k e =
    get_elem?-ends n room ys i x (omega arith) (omega arith) e

pub new_entry-IsPublished :
    (c : Cache) (pc : ℕ) (b : Block) (offset : ℕ)
    → b.instructions ≤ 32
    → IsPublished c pc b offset (new_entry c pc b offset)
unfolding new_entry
new_entry-IsPublished c pc b offset short = record {
  address = refl;
  current = refl;
  code = refl;
  code_length = refl;
  source_length = refl;
  canonical_entry = refl;
  chain_entry = refl;
  count = refl;
  ends_copied =
      λ i end below at. get_elem?-ends b.instructions 32 b.instruction_ends i end short below at;
  entry_kept = refl;
  exit_kept = refl;
  same_exit = refl;
  taken_link = record {
    target = refl;
    source = refl;
    unlinked = refl;
    unreconciled = refl;
    no_target_code = refl;
    no_canonical_code = refl;
  };
  fallthrough_link = record {
    target = refl;
    source = refl;
    unlinked = refl;
    unreconciled = refl;
    no_target_code = refl;
    no_canonical_code = refl;
  };
}

pub new_entry-matches :
    (c : Cache) (pc : ℕ) (b : Block) (offset : ℕ)
    → matches c.generation pc (new_entry c pc b offset) ≡ true
unfolding new_entry
new_entry-matches c pc b offset = ground arith
