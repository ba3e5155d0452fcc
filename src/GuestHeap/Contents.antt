-- ===== src/GuestHeap/Contents.antt =====
-- What pw_guest_heap_calloc and realloc leave in guest memory: the new block's bytes are as
-- promised, and those of every other block in use stay.
use native.Mathlib.Decide.{ℕ_discrete}
use ps5_homebrew_lab.Common.{
  ℕ, ◌+◌, ◌-◌, ◌*◌, ◌^◌, ◌<◌, ◌≡◌, ◌≢◌, ◌⊎◌, true, arith, refl, ◌∙◌, ltb, ◌==◌, ok, err,
  precondition, limit, >>=-eq-ok, neq_test, inl, inr, min, refuse,
}
use ps5_homebrew_lab.GuestHeap.{
  Heap, Memory, validate, find, block_at, rounded, query, alloc, free, calloc, fill, reallocate,
  realloc,
}
use ps5_homebrew_lab.GuestHeap.Live.{query-eq-ok}
use ps5_homebrew_lab.GuestHeap.Moved.{Holds, Moved, resize-Moved}
use ps5_homebrew_lab.GuestHeap.Laws.{query-alloc, query-free, query_disjoint, alloc_address}
use ps5_homebrew_lab.GuestHeap.Valid.{IsValid, validate-IsValid}

module _ (h : Heap) (m : Memory) (count bytes : ℕ) (h' : Heap) (m' : Memory) (p : ℕ)
    (done : calloc h m count bytes ≡ ok (h', m', p)) where
  calloc-eq-ok : (alloc h (count * bytes) ≡ ok (h', p)) × (m' ≡ fill m p (count * bytes))
  unfolding calloc
  calloc-eq-ok =
      let (_, _, rest) = >>=-eq-ok (refuse (ltb (2 ^ 32 - 1) (count * bytes)) limit) _ done in
      let ((g, q), got, last) = >>=-eq-ok (alloc h (count * bytes)) _ rest in (cc, cc)

  -- calloc gives a block of count * bytes bytes, which may be 0 bytes, and all of them hold 0.
  pub calloc_zeroed :
      (query h' p ≡ ok (count * bytes)) × ((j : ℕ) → j < count * bytes → m' (p + j) ≡ 0)
  unfolding fill
  calloc_zeroed =
      let (taken, filled) = calloc-eq-ok in
      (
        ground (arith, query-alloc h (count * bytes) h' p taken p),
        λ j below. rw filled (ground arith),
      )

  -- calloc leaves the request and the bytes of every block in use as they were.
  pub calloc_others : (a r : ℕ) → query h a ≡ ok r → (query h' a ≡ ok r) × Holds m' a m a r
  unfolding fill
  calloc_others a r live =
      let (taken, filled) = calloc-eq-ok in
      let answers = query-alloc h (count * bytes) h' p taken in
      let away : a ≢ p = λ s. ground (arith, alloc_address h (count * bytes) h' p taken) in
      let kept : query h' a ≡ ok r = ground (arith, answers a) in
      let here : query h' p ≡ ok (count * bytes) = ground (arith, answers p) in
      (
        kept,
        λ j below.
            rw filled (ground (arith, query_disjoint h' a p r (count * bytes) kept here away)),
      )

-- What a call of realloc to 0 bytes has left: the block is released, the result is NULL.
pub record Released (h : Heap) (m : Memory) (address : ℕ) (h' : Heap) (m' : Memory) (p : ℕ)
    : Type 0 where
  pub null : p ≡ 0
  pub forgotten : query h' address ≡ err precondition
  pub rest : (a : ℕ) → a ≢ address → query h' a ≡ query h a
  pub same_bytes : m' ≡ m

module _ (h : Heap) (m : Memory) (address n : ℕ) (h' : Heap) (m' : Memory) (p : ℕ)
    (present : address ≢ 0) (done : realloc h m address n ≡ ok (h', m', p)) where
  opened : IsValid h × (i : ℕ) × (find h address ≡ ok i)
  unfolding realloc reallocate
  opened =
      let (_, checked, rest) = >>=-eq-ok (validate h) _ done in
      let rest' = rw (neq_test address 0 present) at rest in
      let (i, found, _) = >>=-eq-ok (find h address) _ rest' in
      ((validate-IsValid h).0 checked, i, found)

  realloc-live : (old : ℕ) × (query h address ≡ ok old)
  unfolding query
  realloc-live =
      let (v, i, found) = opened in
      ((block_at i h.blocks).requested, rw ((validate-IsValid h).1 v, found) refl)

  realloc-Released : n ≡ 0 → Released h m address h' m' p
  unfolding realloc reallocate
  realloc-Released nothing =
      let (_, checked, rest) = >>=-eq-ok (validate h) _ done in
      let rest' = rw (neq_test address 0 present) at rest in
      let (i, found, rest'') = >>=-eq-ok (find h address) _ rest' in
      let empty : (n == 0) ≡ true = ground arith in
      let (g, freed, last) = >>=-eq-ok (free h address) _ (rw empty at rest'') in
      let same : g ≡ h' = cc in
      let answers = query-free h address h' present (rw same at freed) in
      record {
        null = cc;
        forgotten = ground (arith, answers address);
        rest = λ a away. ground (arith, answers a);
        same_bytes = cc;
      }

  realloc-Moved : (old : ℕ) → n ≢ 0 → query h address ≡ ok old → Moved h m address old n h' m' p
  unfolding realloc reallocate
  realloc-Moved old positive live =
      let (v, _, _) = opened in
      let (_, checked, rest) = >>=-eq-ok (validate h) _ done in
      let rest' = rw (neq_test address 0 present) at rest in
      let (i, found, rest'') = >>=-eq-ok (find h address) _ rest' in
      let (size, fits, last) = >>=-eq-ok (rounded n) _ (rw (neq_test n 0 positive) at rest'') in
      resize-Moved h m address old n i size h' m' p v found live fits present last

module _ (h : Heap) (m : Memory) (address n : ℕ) (h' : Heap) (m' : Memory) (p : ℕ)
    (done : realloc h m address n ≡ ok (h', m', p)) where
  -- Realloc of a block in use, of which `old` bytes were asked for, perhaps none. To 0 bytes, the result is
  -- NULL and the address is unknown from then on. To more bytes, the result holds the request n and starts
  -- with the old bytes, up to the smaller of the two sizes; the old address is unknown, unless it is the result.
  pub realloc_contents :
      (old : ℕ)
      → query h address ≡ ok old
      → ((n ≡ 0) × (p ≡ 0) × (query h' address ≡ err precondition))
        ⊎ ((n ≢ 0)
            × (query h' p ≡ ok n)
            × ((p ≡ address) ⊎ (query h' address ≡ err precondition))
            × Holds m' p m address (min old n))
  realloc_contents old live =
      let (v, above, _) = query-eq-ok h address old live in
      let present : address ≢ 0 = omega (arith, v.based) in
      elim (ℕ_discrete n 0) [
        | yes nothing ↦
            let w = realloc-Released h m address n h' m' p present done nothing in
            inl (nothing, w.null, w.forgotten)
        | no positive ↦
            let w = realloc-Moved h m address n h' m' p present done old positive live in
            inr (
              positive,
              w.here,
              elim (ℕ_discrete p address) [ yes same ↦ inl same | no away ↦ inr (w.gone away) ],
              w.contents,
            )
      ]

  -- The call on NULL, which is that of alloc.
  null_others : (a r : ℕ) → address ≡ 0 → query h a ≡ ok r → (query h' a ≡ ok r) × Holds m' a m a r
  unfolding realloc
  null_others a r null there =
      let (_, checked, rest) = >>=-eq-ok (validate h) _ done in
      let absent : (address == 0) ≡ true = ground arith in
      let ((g, q), got, last) = >>=-eq-ok (alloc h n) _ (rw absent at rest) in
      let same : g ≡ h' = cc in
      let kept : m' ≡ m = cc in
      let away : a ≢ q = λ s. ground (arith, alloc_address h n g q got) in
      (rw (← same) (ground (arith, query-alloc h n g q got a)), λ j below. rw kept)

  -- Realloc of any address, NULL included, to any number of bytes leaves the request and the bytes of every
  -- other block in use as they were.
  pub realloc_others :
      (a r : ℕ) → a ≢ address → query h a ≡ ok r → (query h' a ≡ ok r) × Holds m' a m a r
  realloc_others a r other there = elim (ℕ_discrete address 0) [
    | yes null ↦ null_others a r null there
    | no present ↦ elim (ℕ_discrete n 0) [
      | yes nothing ↦
          let w = realloc-Released h m address n h' m' p present done nothing in
          (w.rest a other ∙ there, λ j below. rw w.same_bytes)
      | no positive ↦
          let (old, live) = realloc-live h m address n h' m' p present done in
          (realloc-Moved h m address n h' m' p present done old positive live).others a r other
            there
    ]
  ]
