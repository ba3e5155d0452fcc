-- ===== src/Pe/Import/Thunks.antt =====
-- Where the symbols of a module stand in its address table.
use ps5_homebrew_lab.Common.{
  ℕ, zero, suc, ◌+◌, ◌-◌, ◌*◌, ◌^◌, ◌≤◌, ◌<◌, ◌≡◌, ◌||◌, inl, inr, some, List, [], ◌∷◌, get_elem?,
  arith, ltb, ◌==◌, ok, overflow, malformed, refuse, >>=-eq-ok,
}
use ps5_homebrew_lab.Pe.Image.{Image}
use ps5_homebrew_lab.Pe.Import.{
  Module, Symbol, thunk_bytes, read_thunk, enumerate_from, enumerate, max_symbols, source_rva,
}
use ps5_homebrew_lab.Pe.Import.Safety.{IsWidth, thunk_bytes-IsWidth}
use ps5_homebrew_lab.Pe.Import.Count.{read_symbol_kind}

slot_bound : (index width : ℕ) → IsWidth width → index ≤ max_symbols → index * width < 2 ^ 32
slot_bound index width w h = elim w [
  | inl four ↦ rw four (omega arith)
  | inr eight ↦ rw eight (omega arith)
]

module _ (im : Image) (source address width capacity : ℕ) where
  -- One round that has entered a symbol.
  round :
      (index left : ℕ) (x : Symbol) (ss : List Symbol)
      → enumerate_from im source address width capacity index (suc left) ≡ ok (x ∷ ss)
      → index * width < 2 ^ 32
      → (x.thunk_rva ≡ address + index * width)
        × (x.thunk_rva < 2 ^ 32)
        × (index < capacity)
        × (enumerate_from im source address width capacity (index + 1) left ≡ ok ss)
  unfolding enumerate_from
  round index left x ss e small =
      let (_, room, rest) =
        >>=-eq-ok
          (refuse
            (ltb (0xffff_ffff - index * width) source || ltb (0xffff_ffff - index * width) address)
            overflow)
          _ e in
      let (value, read, more) = >>=-eq-ok (read_thunk im (source + index * width) width) _ rest in
      ground (arith, read_symbol_kind im width (address + index * width) value x)

  enumerate_from_at :
      (index left j : ℕ) (ss : List Symbol) (s : Symbol)
      → enumerate_from im source address width capacity index left ≡ ok ss
      → get_elem? ss j ≡ some s
      → IsWidth width
      → index + left ≤ max_symbols
      → (s.thunk_rva ≡ address + (index + j) * width)
        × (s.thunk_rva < 2 ^ 32)
        × (index + j < capacity)
  enumerate_from_at index left j [] s e at w h = cc
  enumerate_from_at index zero j (x ∷ ss) s e at w h = unfold enumerate_from in cc
  enumerate_from_at index (suc left) zero (x ∷ ss) s e at w h =
      let r = round index left x ss e (slot_bound index width w (omega arith)) in
      let same : x ≡ s = cc in
      let start : index + 0 ≡ index = omega arith in rw (← same, start) (r.0, r.1, r.2)
  enumerate_from_at index (suc left) (suc j) (x ∷ ss) s e at w h =
      let r = round index left x ss e (slot_bound index width w (omega arith)) in
      let shift : index + suc j ≡ index + 1 + j = omega arith in
      rw shift (enumerate_from_at (index + 1) left j ss s r.3 at w (omega arith))

-- The symbol at a place belongs to the slot of the address table at that place, the address of which
-- does not wrap, and has room in the array of the caller.
pub enumerate_thunks :
    (im : Image) (m : Module) (width capacity j : ℕ) (ss : List Symbol) (s : Symbol)
    → thunk_bytes im ≡ ok width
    → enumerate im m capacity ≡ ok ss
    → get_elem? ss j ≡ some s
    → (s.thunk_rva ≡ m.address_table_rva + j * width) × (s.thunk_rva < 2 ^ 32) × (j < capacity)
unfolding enumerate
enumerate_thunks im m width capacity j ss s known e at =
    let source = source_rva m.lookup_table_rva m.address_table_rva in
    let (w, read, rest) = >>=-eq-ok (thunk_bytes im) _ e in
    let same : w ≡ width = cc in
    let (_, _, walked) = >>=-eq-ok (refuse (source == 0) malformed) _ rest in
    let start : 0 + j ≡ j = omega arith in
    let found =
      enumerate_from_at im source m.address_table_rva width capacity 0 max_symbols j ss s
        (rw same at walked) at (thunk_bytes-IsWidth im width known) (omega arith) in
    rw start at found
