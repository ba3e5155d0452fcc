-- ===== src/BlockCache/Laws.antt =====
-- What publishing and resetting do to later lookups, and to the code arena.
use ps5_homebrew_lab.Common.{
  ℕ, ◌+◌, ◌-◌, ◌%◌, ◌^◌, ◌≡◌, ◌≢◌, ◌≤◌, ◌<◌, ◌⊎◌, false, not, ◌||◌, ◌==◌, ltb, none, some,
  get_elem?, set, arith, refl, ◌∙◌, ap, Bool-cases, inl, inr, ok, precondition, limit, refuse,
  >>=-eq-ok,
}
use ps5_homebrew_lab.Common.Bits.{bit_and_high}
use ps5_homebrew_lab.BlockCache.{
  Cache, Entry, Block, Walk, hit, vacant, full, outside, walk, walk_from, first_slot, finish_lookup,
  lookup, new_entry, next_cursor, store_at, publish,
}
use ps5_homebrew_lab.BlockCache.Published.{IsPublished, new_entry-IsPublished, new_entry-matches}
use ps5_homebrew_lab.BlockCache.Probe.{
  walk-vacant, walk-hit, walk-set_self, walk-set_other, get_elem?-set_self, get_elem?-set_other,
}

finish_lookup-hit :
    (c : Cache) (w : Walk) (j : ℕ) → (finish_lookup c w).1 ≡ ok j → (q : ℕ) × (w ≡ hit j q)
unfolding finish_lookup
finish_lookup-hit c (hit s q) j e = (q, (let same : s ≡ j = cc in ap (λ (t : ℕ). hit t q) same))
finish_lookup-hit c (vacant s q) j e = absurd (cc)
finish_lookup-hit c full j e = absurd (cc)
finish_lookup-hit c outside j e = absurd (cc)

lookup-walk : (c : Cache) (pc j : ℕ) → (lookup c pc).1 ≡ ok j → (q : ℕ) × (walk_from c pc ≡ hit j q)
unfolding lookup
lookup-walk c pc j e = elim (Bool-cases (c.generation == 0)) [
  | inl unused ↦ absurd (let at = rw unused at e in cc)
  | inr used ↦ finish_lookup-hit c (walk_from c pc) j (rw used at e)
]

walk-lookup :
    (c : Cache) (pc j q : ℕ) → c.generation ≢ 0 → walk_from c pc ≡ hit j q → (lookup c pc).1 ≡ ok j
unfolding lookup finish_lookup
walk-lookup c pc j q g e =
    rw ((let used : (c.generation == 0) ≡ false = ground arith in used), e) refl

-- What a call of publish that succeeded has found and stored.
record IsStored (c : Cache) (pc : ℕ) (b : Block) (offset : ℕ) (c' : Cache) (k : ℕ) : Type 0 where
  pub probe : ℕ
  pub found : walk_from c pc ≡ vacant k probe
  pub generation_set : c.generation ≢ 0
  pub at_cursor : offset ≡ c.cursor
  pub nonempty : b.code_bytes ≢ 0
  pub room : offset + b.code_bytes ≤ c.arena_bytes
  pub short : b.instructions ≤ 32
  pub stored : c'.entries ≡ set c.entries k (some (new_entry c pc b offset))
  pub same_capacity : c'.capacity ≡ c.capacity
  pub same_generation : c'.generation ≡ c.generation
  pub moved : c'.cursor ≡ next_cursor c.arena_bytes (offset + b.code_bytes)
  pub same_arena : c'.arena_bytes ≡ c.arena_bytes

store_at-vacant :
    (c : Cache) (pc : ℕ) (b : Block) (offset : ℕ) (w : Walk) (c' : Cache) (k : ℕ)
    → store_at c pc b offset w ≡ ok (c', k)
    → (q : ℕ) × (w ≡ vacant k q)
unfolding store_at
store_at-vacant c pc b offset (hit s q) c' k e = absurd (cc)
store_at-vacant c pc b offset (vacant s q) c' k e = (q, ground arith)
store_at-vacant c pc b offset full c' k e = absurd (cc)
store_at-vacant c pc b offset outside c' k e = absurd (cc)

store_at-short :
    (c : Cache) (pc : ℕ) (b : Block) (offset k q : ℕ) (c' : Cache)
    → store_at c pc b offset (vacant k q) ≡ ok (c', k)
    → b.instructions ≤ 32
unfolding store_at
store_at-short c pc b offset k q c' e = ground arith

store_at-eq-ok :
    (c : Cache) (pc : ℕ) (b : Block) (offset k q : ℕ) (c' : Cache)
    → store_at c pc b offset (vacant k q) ≡ ok (c', k)
    → c' ≡ record c {
      entries = set c.entries k (some (new_entry c pc b offset));
      cursor = next_cursor c.arena_bytes (offset + b.code_bytes);
      publishes = (c.publishes + 1) % 2 ^ 64;
    }
unfolding store_at
store_at-eq-ok c pc b offset k q c' e = elim (Bool-cases (ltb 32 b.instructions)) [
  | inl long ↦ absurd (let at = rw long at e in cc)
  | inr fits ↦ let at = rw fits at e in cc
]

publish-IsStored :
    (c : Cache) (pc : ℕ) (b : Block) (offset : ℕ) (c' : Cache) (k : ℕ)
    → publish c pc b offset ≡ ok (c', k)
    → IsStored c pc b offset c' k
unfolding publish
publish-IsStored c pc b offset c' k e =
    let (_, present, rest) =
      >>=-eq-ok
        (refuse
          (c.generation == 0 || b.source_bytes == 0 || b.code_bytes == 0 || b.instructions == 0)
          precondition)
        _ e in
    let (_, fits, walked) =
      >>=-eq-ok
        (refuse
          (not (offset == c.cursor)
            || ltb c.arena_bytes offset
            || ltb (c.arena_bytes - offset) b.code_bytes)
          limit)
        _ rest in
    let (q, found) = store_at-vacant c pc b offset (walk_from c pc) c' k walked in
    let opened : store_at c pc b offset (vacant k q) ≡ ok (c', k) = rw found at walked in
    let same = store_at-eq-ok c pc b offset k q c' opened in
    record {
      probe = q;
      found = found;
      generation_set = ground arith;
      at_cursor = ground arith;
      nonempty = ground arith;
      room = ground arith;
      short = store_at-short c pc b offset k q c' opened;
      stored = ap (λ (t : Cache). t.entries) same;
      same_capacity = ap (λ (t : Cache). t.capacity) same;
      same_generation = ap (λ (t : Cache). t.generation) same;
      moved = ap (λ (t : Cache). t.cursor) same;
      same_arena = ap (λ (t : Cache). t.arena_bytes) same;
    }

-- The walks of the cache behind a call of publish.
module _ (c : Cache) (pc : ℕ) (b : Block) (offset : ℕ) (c' : Cache) (k : ℕ)
    (published : publish c pc b offset ≡ ok (c', k)) where
  walk_from-publish :
      (other : ℕ)
      → walk_from c' other
        ≡ walk
            (set c.entries k (some (new_entry c pc b offset)))
            c.capacity
            c.generation
            other
            (first_slot c.capacity other)
            1
            c.capacity
  walk_from-publish other =
      let s = publish-IsStored c pc b offset c' k published in
      rw (s.stored, s.same_capacity, s.same_generation) refl

  -- The block that was published is what a lookup of its address finds: the slot that publish returns is
  -- found, and the entry there holds the offset of the code and the fields of the block, with no link.
  pub lookup-publish :
      (e : Entry) × ((lookup c' pc).1 ≡ ok k)
      × (get_elem? c'.entries k ≡ some (some e))
      × IsPublished c pc b offset e
  lookup-publish =
      let s = publish-IsStored c pc b offset c' k published in
      let first = first_slot c.capacity pc in
      let free =
        walk-vacant c.entries c.capacity c.generation pc first 1 c.capacity k s.probe s.found in
      let found =
        walk-set_self c.entries c.capacity c.generation pc k (new_entry c pc b offset) free first 1
          c.capacity s.probe (new_entry-matches c pc b offset) s.found in
      let used : c'.generation ≢ 0 = rw s.same_generation s.generation_set in
      (
        new_entry c pc b offset,
        walk-lookup c' pc k s.probe used (walk_from-publish pc ∙ found),
        rw s.stored (get_elem?-set_self c.entries k none (some (new_entry c pc b offset)) free),
        new_entry-IsPublished c pc b offset s.short,
      )

  -- Every block that a lookup found before is found after in the same slot, with the same entry.
  pub lookup_others :
      (other j : ℕ)
      → (lookup c other).1 ≡ ok j
      → ((lookup c' other).1 ≡ ok j) × (get_elem? c'.entries j ≡ get_elem? c.entries j)
  lookup_others other j e =
      let s = publish-IsStored c pc b offset c' k published in
      let (q, at) = lookup-walk c other j e in
      let first = first_slot c.capacity pc in
      let free =
        walk-vacant c.entries c.capacity c.generation pc first 1 c.capacity k s.probe s.found in
      let start = first_slot c.capacity other in
      let found =
        walk-set_other c.entries c.capacity c.generation other k (new_entry c pc b offset) free
          start 1 c.capacity j q at in
      let used : c'.generation ≢ 0 = rw s.same_generation s.generation_set in
      let (x, there, _) =
        walk-hit c.entries c.capacity c.generation other start 1 c.capacity j q at in
      let apart : j ≢ k =
        λ p. (let clash : get_elem? c.entries k ≡ some (some x) = rw p at there in cc) in
      (
        walk-lookup c' other j q used (walk_from-publish other ∙ found),
        rw s.stored (get_elem?-set_other c.entries k j (some (new_entry c pc b offset)) apart),
      )

  -- In an arena of less than 2^64 - 15 bytes, the code of the block stands at the cursor and in the arena,
  -- and the cursor moves behind it, to a multiple of 16 or to the end of the arena.
  pub publish_arena :
      c.arena_bytes + 15 < 2 ^ 64
      → (offset ≡ c.cursor)
        × (offset + b.code_bytes ≤ c'.cursor)
        × (c'.cursor ≤ c'.arena_bytes)
        × ((c'.cursor % 16 ≡ 0) ⊎ (c'.cursor ≡ c'.arena_bytes))
        × (c.cursor < c'.cursor)
  unfolding next_cursor
  publish_arena small =
      let s = publish-IsStored c pc b offset c' k published in
      let end = offset + b.code_bytes in
      let masked = bit_and_high 4 64 ((end + 15) % 2 ^ 64) (omega arith) (omega arith) in
      omega (arith, s.at_cursor, s.nonempty, s.room, s.moved, s.same_arena, masked)
