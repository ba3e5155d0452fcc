-- ===== src/BlockCache/Reset.antt =====
-- pw_x86_cache_reset: no lookup finds a block behind it.
use ps5_homebrew_lab.Common.{
  ℕ, zero, suc, ◌<◌, ◌≡◌, ◌≢◌, false, ◌||◌, ◌==◌, none, some, get_elem?, replicate, arith, refl, ok,
  err, not_found, precondition, refuse, >>=-eq-ok,
}
use native.Mathlib.Nat.{mod-lt}
use ps5_homebrew_lab.BlockCache.{
  Cache, vacant, walk, walk_from, first_slot, finish_lookup, lookup, reset,
}
use ps5_homebrew_lab.BlockCache.Probe.{round-free}

get_elem?-replicate {ℓ} :
    {A : Type ℓ} (n i : ℕ) (a : A) → i < n → get_elem? (replicate n a) i ≡ some a
get_elem?-replicate zero i a h = absurd (omega arith)
get_elem?-replicate (suc n) zero a h = refl
get_elem?-replicate (suc n) (suc i) a h = get_elem?-replicate n i a (omega arith)

first_slot_bound : (capacity pc : ℕ) → capacity ≢ 0 → first_slot capacity pc < capacity
unfolding first_slot
first_slot_bound capacity pc h = mod-lt _ (omega arith)

walk-empty :
    (capacity generation pc slot left : ℕ)
    → slot < capacity
    → 0 < left
    → walk (replicate capacity none) capacity generation pc slot 1 left ≡ vacant slot 1
walk-empty capacity generation pc slot zero h k = absurd (omega arith)
walk-empty capacity generation pc slot (suc left) h k =
    round-free (replicate capacity none) capacity generation pc slot 1 left
      (get_elem?-replicate capacity slot none h)

lookup-vacant :
    (c : Cache) (pc k q : ℕ)
    → c.generation ≢ 0
    → walk_from c pc ≡ vacant k q
    → (lookup c pc).1 ≡ err not_found
unfolding lookup finish_lookup
lookup-vacant c pc k q g e =
    rw ((let used : (c.generation == 0) ≡ false = ground arith in used), e) refl

-- A reset forgets every block: no lookup finds one, and the arena is free from its start.
pub lookup-reset :
    (c : Cache) (generation : ℕ) (c' : Cache) (pc : ℕ)
    → reset c generation ≡ ok c'
    → ((lookup c' pc).1 ≡ err not_found) × (c'.cursor ≡ 0) × (c'.generation ≢ c.generation)
unfolding reset
lookup-reset c generation c' pc e =
    let (_, tests, rest) =
      >>=-eq-ok
        (refuse (c.capacity == 0 || generation == 0 || generation == c.generation) precondition) _
        e in
    let entries : c'.entries ≡ replicate c.capacity none = ground arith in
    let capacity : c'.capacity ≡ c.capacity = ground arith in
    let current : c'.generation ≡ generation = ground arith in
    let fresh : generation ≢ 0 = ground arith in
    let changed : generation ≢ c.generation = ground arith in
    let some_slots : c.capacity ≢ 0 = ground arith in
    let empty : walk_from c' pc ≡ vacant (first_slot c.capacity pc) 1 =
      rw (entries, capacity)
        (walk-empty c.capacity c'.generation pc (first_slot c.capacity pc) c.capacity
          (first_slot_bound c.capacity pc some_slots) (omega arith)) in
    (
      lookup-vacant c' pc (first_slot c.capacity pc) 1 (rw current fresh) empty,
      ground arith,
      rw current changed,
    )
