-- ===== src/BlockCache/Tests.antt =====
-- A cache of four slots in which two blocks of one hash class are published, and the theorems at it.
use ps5_homebrew_lab.Common.{
  ℕ, ◌+◌, ◌%◌, ◌≡◌, ◌≤◌, ◌<◌, ◌⊎◌, refl, none, some, [], ◌∷◌, get_elem?, replicate, arith, ok,
}
use ps5_homebrew_lab.BlockCache.{
  exit_none, ExitDesc, RegContract, Block, Entry, Cache, first_slot, walk, init, finish_lookup,
  lookup, new_entry, next_cursor, store_at, publish, reset,
}
use ps5_homebrew_lab.BlockCache.Published.{IsPublished}
use ps5_homebrew_lab.BlockCache.Laws.{lookup-publish, lookup_others, publish_arena}

abbrev no_exit : ExitDesc
no_exit = record {
  kind = exit_none;
  chainable = 0;
  target_pc = 0;
  fallthrough_pc = 0;
  target_patch_offset = 0;
  fallthrough_patch_offset = 0;
  target_stub_offset = 0;
  fallthrough_stub_offset = 0;
  target_reconcile_offset = 0;
  fallthrough_reconcile_offset = 0;
  target_reconcile_patch_offset = 0;
  fallthrough_reconcile_patch_offset = 0;
}

abbrev contract : RegContract
contract = record {
  resident_mask = 0;
  dirty_mask = 0;
  guest_to_host = replicate 8 none;
  host_to_guest = replicate 3 none;
}

abbrev block : ℕ → Block
block bytes = record {
  source_bytes = 3;
  code_bytes = bytes;
  instructions = 2;
  instruction_ends = 1 ∷ 3 ∷ [];
  canonical_entry_offset = 0;
  chain_entry_offset = 0;
  entry_contract = contract;
  exit_contract = contract;
  exit = no_exit;
}

abbrev cache : Cache
cache = record {
  entries = replicate 4 none;
  capacity = 4;
  generation = 1;
  arena_bytes = 100;
  cursor = 0;
  hits = 0;
  misses = 0;
  publishes = 0;
  resets = 0;
  lookup_probes = 0;
  max_probe = 0;
}

init_run : init 4 100 1 ≡ ok cache
unfolding init
init_run = refl

abbrev one : Cache
one = record cache {
  entries = some (new_entry cache 0 (block 20) 0) ∷ none ∷ none ∷ none ∷ [];
  cursor = 32;
  publishes = 1;
}

publish_run : publish cache 0 (block 20) 0 ≡ ok (one, 0)
unfolding publish store_at walk first_slot next_cursor
publish_run = refl

-- The address 2 has the slot of 0, so that its block stands in the next one.
abbrev two : Cache
two = record one {
  entries =
      some (new_entry cache 0 (block 20) 0)
      ∷ some (new_entry one 2 (block 10) 32)
      ∷ none
      ∷ none
      ∷ [];
  cursor = 48;
  publishes = 2;
}

publish_run2 : publish one 2 (block 10) 32 ≡ ok (two, 1)
unfolding publish store_at walk first_slot next_cursor new_entry
publish_run2 = refl

lookup_run : (lookup one 0).1 ≡ ok 0
unfolding lookup finish_lookup walk first_slot new_entry
lookup_run = refl

abbrev emptied : Cache
emptied = record two { entries = replicate 4 none; generation = 2; cursor = 0; resets = 1 }

reset_run : reset two 2 ≡ ok emptied
unfolding reset
reset_run = refl

lookup-publish_example :
    (e : Entry) × ((lookup two 2).1 ≡ ok 1)
    × (get_elem? two.entries 1 ≡ some (some e))
    × IsPublished one 2 (block 10) 32 e
lookup-publish_example = lookup-publish one 2 (block 10) 32 two 1 publish_run2

lookup_others_example :
    ((lookup two 0).1 ≡ ok 0) × (get_elem? two.entries 0 ≡ get_elem? one.entries 0)
lookup_others_example = lookup_others one 2 (block 10) 32 two 1 publish_run2 0 0 lookup_run

publish_arena_example :
    (32 ≡ one.cursor)
    × (32 + 10 ≤ two.cursor)
    × (two.cursor ≤ two.arena_bytes)
    × ((two.cursor % 16 ≡ 0) ⊎ (two.cursor ≡ two.arena_bytes))
    × (one.cursor < two.cursor)
publish_arena_example = publish_arena one 2 (block 10) 32 two 1 publish_run2 (omega arith)
