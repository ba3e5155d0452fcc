-- ===== src/GuestHeap/Moved.antt =====
-- The branches of pw_guest_heap_realloc that keep a block or move it, in terms of query and of the bytes.
use ps5_homebrew_lab.Common.{
  ℕ, ◌+◌, ◌-◌, ◌<◌, ◌≡◌, ◌≢◌, false, arith, ◌∙◌, Bool-cases, leb, ◌==◌, if◌then◌else◌, ok, err,
  precondition, inl, inr, min,
}
use ps5_homebrew_lab.GuestHeap.{
  Heap, Memory, find, block_at, mark, shrink, rounded, grow, query, copy, move_block, resize,
}
use ps5_homebrew_lab.GuestHeap.Calls.{find_index_lem, find-eq-ok}
use ps5_homebrew_lab.GuestHeap.Realloc.{
  grow-IsValid, grown_used, resize-IsValid, block_at-grow, move_block-eq-ok,
}
use ps5_homebrew_lab.GuestHeap.Live.{
  requested_at-mark, requested_at-shrink, requested_at-grow, query_lem,
}
use ps5_homebrew_lab.GuestHeap.Laws.{query-alloc, query-free, query_disjoint, alloc_address}
use ps5_homebrew_lab.GuestHeap.Valid.{IsValid, validate-IsValid}

-- The bytes of the span of `n` bytes at `a` are those of the span at `b` of the old memory.
abbrev pub Holds : Memory → ℕ → Memory → ℕ → ℕ → Type 0
Holds m' a m b n = (j : ℕ) → j < n → m' (a + j) ≡ m (b + j)

-- A reallocation that succeeds, seen through query.
pub record Moved (h : Heap) (m : Memory) (address old n : ℕ) (h' : Heap) (m' : Memory) (p : ℕ)
    : Type 0 where
  pub here : query h' p ≡ ok n
  pub others : (a r : ℕ) → a ≢ address → query h a ≡ ok r → (query h' a ≡ ok r) × Holds m' a m a r
  pub gone : p ≢ address → query h' address ≡ err precondition
  pub contents : Holds m' p m address (min old n)

move_block-Moved :
    (h : Heap) (m : Memory) (address old n : ℕ) (h' : Heap) (m' : Memory) (p : ℕ)
    → address ≢ 0
    → query h address ≡ ok old
    → move_block h m address old n ≡ ok (h', m', p)
    → Moved h m address old n h' m' p
move_block-Moved h m address old n h' m' p present live e =
    let (g, got, freed, written) = move_block-eq-ok h m address old n h' m' p e in
    let fresh : p ≢ address = λ s. ground (arith, alloc_address h n g p got) in
    let allocated = query-alloc h n g p got in
    let released = query-free g address h' present freed in
    record {
      here = ground (arith, allocated p, released p);
      others = λ a r other there.
          let away : a ≢ p = λ s. ground (arith, alloc_address h n g p got) in
          (
            ground (arith, allocated a, released a),
            λ j below. rw written (
                unfold copy in
                ground (
                  arith,
                  query_disjoint g a p r n (ground (arith, allocated a))
                      (ground (arith, allocated p)) away,
                )),
          );
      gone = λ s. ground (arith, released address);
      contents = λ j below. rw written (unfold copy in ground arith);
    }

-- An answer of query survives when a neighbour is taken in.
query-grow :
    (h : Heap) (size i a : ℕ)
    → IsValid h
    → query (record h { blocks = grow size i h.blocks }) a ≡ query h a
query-grow h size i a v = rw (
  query_lem (record h { blocks = grow size i h.blocks }) a (grow-IsValid h size i v),
  query_lem h a v,
  requested_at-grow (a - h.base) size i h.blocks,
)

module _ (h : Heap) (m : Memory) (address old n i size : ℕ) (h' : Heap) (m' : Memory) (p : ℕ)
    (v : IsValid h) (found : find h address ≡ ok i) (live : query h address ≡ ok old)
    (fits : rounded n ≡ ok size) where
  -- The block is cut or extended in its place.
  in_place :
      resize h m address n i size ≡ ok (h', m', p)
      → h' ≡ record h { blocks = shrink h.capacity i size (mark 1 n i (grow size i h.blocks)) }
      → (a : ℕ) → query h' a ≡ (if a == address then ok n else query h a)
  in_place e shape a =
      let (above, index) = find-eq-ok h address i found in
      let (at, used, below) = find_index_lem (address - h.base) h.blocks i index in
      let kept = block_at-grow size i h.blocks below in
      let v' = resize-IsValid h m address n i size h' m' p v below used fits e in
      rw
        (
          query_lem h' a v',
          query_lem h a v,
          shape,
          requested_at-shrink (a - h.base) h.capacity size i (mark 1 n i (grow size i h.blocks)),
          requested_at-mark (a - h.base) 1 n i 0 false (grow size i h.blocks) h.bytes
              (grow-IsValid h size i v).tiled kept.0,
          requested_at-grow (a - h.base) size i h.blocks,
          kept.1,
          at,
        )
        (ground arith)

  old_request : (block_at i h.blocks).requested ≡ old
  unfolding query
  old_request = ground (arith, (validate-IsValid h).1 v)

  in_place-Moved :
      resize h m address n i size ≡ ok (h', m', p)
      → h' ≡ record h { blocks = shrink h.capacity i size (mark 1 n i (grow size i h.blocks)) }
      → m' ≡ m
      → p ≡ address
      → Moved h m address old n h' m' p
  in_place-Moved e shape same here =
      let answers = in_place e shape in
      record {
        here = ground (arith, answers p);
        others = λ a r other there. (ground (arith, answers a), λ j below. rw same);
        gone = λ away. absurd (away here);
        contents = λ j below. rw (same, here);
      }

  pub resize-Moved :
      address ≢ 0 → resize h m address n i size ≡ ok (h', m', p) → Moved h m address old n h' m' p
  unfolding resize
  resize-Moved present e =
      let index = (find-eq-ok h address i found).1 in
      let (_, used, below) = find_index_lem (address - h.base) h.blocks i index in
      let one = grown_used h m address n i size h' m' p v below used fits in
      elim (Bool-cases (leb size (block_at i (grow size i h.blocks)).size)) [
        | inl large ↦ let done = rw (large, one) at e in in_place-Moved e (cc) (cc) (cc)
        | inr small ↦
            let moved = rw (small, old_request) at e in
            let g : Heap = record h { blocks = grow size i h.blocks } in
            let w =
              move_block-Moved g m address old n h' m' p present
                (query-grow h size i address v ∙ live) moved in
            record {
              here = w.here;
              others = λ a r other there. w.others a r other (query-grow h size i a v ∙ there);
              gone = w.gone;
              contents = w.contents;
            }
      ]
