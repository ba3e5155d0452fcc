-- ===== src/Pe/Import/Count.antt =====
-- The counts of the import table, and the symbols that a module is enumerated to.
use ps5_homebrew_lab.Common.{
  ℕ, zero, suc, ◌+◌, ◌-◌, ◌*◌, ◌%◌, ◌^◌, ◌≤◌, ◌<◌, ◌≡◌, ◌≢◌, ◌⊎◌, ◌||◌, some, List, [], ◌∷◌, length,
  get_elem?, arith, ltb, ◌==◌, ok, overflow, malformed, refuse, ◌>>=◌, subst, if◌then◌else◌,
  Bool-cases, Option-cases, inl, inr, >>=-eq-ok,
}
use ps5_homebrew_lab.Pe.Image.{Image, directory, read_name}
use ps5_homebrew_lab.Pe.Image.Shape.{All}
use ps5_homebrew_lab.Pe.Import.{
  Module, Table, Symbol, Descriptor, is_last, thunk_bytes, read_thunk, thunk_is_ordinal, count_from,
  count_thunks, max_symbols, max_modules, read_descriptor, parse_module, parse_from,
  parse_directory, parse, read_symbol, enumerate_from, enumerate, module_name_bytes, source_rva,
  no_imports,
}

pub by_ordinals : List Symbol → ℕ
by_ordinals [] = 0
by_ordinals (s ∷ ss) = (if s.by_ordinal then 1 else 0) + by_ordinals ss

pub read_symbol_kind :
    (im : Image) (width thunk value : ℕ) (s : Symbol)
    → read_symbol im width thunk value ≡ ok s
    → (s.by_ordinal ≡ thunk_is_ordinal width value) × (s.thunk_rva ≡ thunk)
unfolding read_symbol
read_symbol_kind im width thunk value s e = ground arith

-- One table is walked twice: to count, and to enumerate.
module _ (im : Image) (source address width capacity : ℕ) where
  enumerate_from-count_from :
      (index left named ordinal n o : ℕ) (ss : List Symbol)
      → count_from im source width index left named ordinal ≡ ok (n, o)
      → enumerate_from im source address width capacity index left ≡ ok ss
      → (named + ordinal + length ss ≡ n + o) × (ordinal + by_ordinals ss ≡ o)
  unfolding count_from enumerate_from by_ordinals
  enumerate_from-count_from index zero named ordinal n o ss e f = cc
  enumerate_from-count_from index (suc left) named ordinal n o [] e f = ground arith
  enumerate_from-count_from index (suc left) named ordinal n o (s ∷ ss) e f =
      let (_, room, rest) =
        >>=-eq-ok (refuse (ltb (0xffff_ffff - index * width) source) overflow) _ e in
      let (value, read, more) = >>=-eq-ok (read_thunk im (source + index * width) width) _ rest in
      ground (
        arith,
        read_symbol_kind im width (address + index * width) value s,
        enumerate_from-count_from (index + 1) left (named + 1) ordinal n o ss,
        enumerate_from-count_from (index + 1) left named (ordinal + 1) n o ss,
      )

-- What the loop has recorded of every module.
record IsCounted (im : Image) (width : ℕ) (m : Module) : Type 0 where
  pub recount :
      count_thunks im (source_rva m.lookup_table_rva m.address_table_rva) width
      ≡ ok (m.named_count, m.ordinal_count)
  pub placed : m.address_table_rva ≢ 0

parse_module-IsCounted :
    (im : Image) (width : ℕ) (d : Descriptor) (m : Module)
    → parse_module im width d ≡ ok m
    → d.address ≢ 0
    → IsCounted im width m
unfolding parse_module
parse_module-IsCounted im width d m e h =
    let (name, _, rest) = >>=-eq-ok (read_name im d.name_rva module_name_bytes) _ e in
    let (c, counted, done) =
      >>=-eq-ok (count_thunks im (source_rva d.lookup d.address) width) _ rest in
    ground arith

count_from_bound :
    (im : Image) (table width index left named ordinal n o : ℕ)
    → count_from im table width index left named ordinal ≡ ok (n, o)
    → n + o < named + ordinal + left
unfolding count_from
count_from_bound im table width index zero named ordinal n o e = cc
count_from_bound im table width index (suc left) named ordinal n o e = ground (
  arith,
  count_from_bound im table width (index + 1) left (named + 1) ordinal n o,
  count_from_bound im table width (index + 1) left named (ordinal + 1) n o,
)

IsCounted-bound :
    (im : Image) (width : ℕ) (m : Module)
    → IsCounted im width m
    → m.named_count + m.ordinal_count < max_symbols
unfolding count_thunks
IsCounted-bound im width m c = omega (
  arith,
  count_from_bound im (source_rva m.lookup_table_rva m.address_table_rva) width 0 max_symbols 0 0
      m.named_count m.ordinal_count c.recount,
)

abbrev pub symbols_of : List Module → ℕ
symbols_of [] = 0
symbols_of (m ∷ ms) = m.named_count + m.ordinal_count + symbols_of ms

-- What the loop over the descriptors leaves.
record IsRead (im : Image) (width left symbols : ℕ) (t : Table) : Type 0 where
  pub counted : All (IsCounted im width) t.modules
  pub few : length t.modules ≤ left
  pub summed : t.symbol_count ≡ symbols + symbols_of t.modules
  pub bounded : symbols_of t.modules ≤ length t.modules * max_symbols

parse_from-IsRead :
    (im : Image) (table width index left symbols : ℕ) (t : Table)
    → parse_from im table width index left symbols ≡ ok t
    → symbols + left * max_symbols < 2 ^ 32
    → IsRead im width left symbols t
unfolding parse_from
parse_from-IsRead im table width index zero symbols t e h =
    let (d, _, rest) = >>=-eq-ok (read_descriptor im table index) _ e in
    let same : t ≡ record { symbol_count = symbols; modules = [] } = ground arith in
    rw same
      (record { counted = tt; few = omega arith; summed = omega arith; bounded = omega arith })
parse_from-IsRead im table width index (suc left) symbols t e h =
    let (d, _, rest) = >>=-eq-ok (read_descriptor im table index) _ e in
    elim (Bool-cases (is_last d)) [
      | inl last ↦
          let same : t ≡ record { symbol_count = symbols; modules = [] } = ground arith in
          rw same (record {
            counted = tt;
            few = omega arith;
            summed = omega arith;
            bounded = omega arith;
          })
      | inr more ↦
          let tests = rw more at rest in
          let (_, good, body) =
            >>=-eq-ok (refuse (d.name_rva == 0 || d.address == 0) malformed) _ tests in
          let (m, entered, after) = >>=-eq-ok (parse_module im width d) _ body in
          let total = (symbols + (m.named_count + m.ordinal_count)) % 2 ^ 32 in
          let (u, read, done) =
            >>=-eq-ok (parse_from im table width (index + 1) left total) _ after in
          let placed : d.address ≢ 0 = ground arith in
          let c = parse_module-IsCounted im width d m entered placed in
          let small = IsCounted-bound im width m c in
          let r = parse_from-IsRead im table width (index + 1) left total u read (omega arith) in
          let same : t ≡ record { symbol_count = u.symbol_count; modules = m ∷ u.modules } = cc in
          rw same (record {
            counted = (c, r.counted);
            few = omega (arith, r.few);
            summed = omega (arith, r.summed);
            bounded = omega (arith, r.bounded);
          })
    ]

parse-IsRead :
    (im : Image) (t : Table)
    → parse im ≡ ok t
    → (t ≡ no_imports)
      ⊎ ((width : ℕ) × (thunk_bytes im ≡ ok width) × IsRead im width max_modules 0 t)
unfolding parse
parse-IsRead im t e = elim (Option-cases (directory im 1)) [
  | inl missing ↦ inl (unfold parse_directory in ground arith)
  | inr (d, found) ↦
      let walked : parse_directory im (some d) ≡ ok t = rw found at e in
      elim (Bool-cases (d.virtual_address == 0 || d.size == 0)) [
        | inl empty ↦ inl (unfold parse_directory in ground arith)
        | inr some_table ↦
            let body : (thunk_bytes im >>= λ width.
            parse_from im d.virtual_address width 0 max_modules 0)
                ≡ ok t =
              unfold parse_directory in ground arith in
            let (width, known, read) = >>=-eq-ok (thunk_bytes im) _ body in
            inr (
              width,
              known,
              parse_from-IsRead im d.virtual_address width 0 max_modules 0 t read (omega arith),
            )
      ]
]

-- A table has 64 modules at most, and its symbol count is the sum of the counts of the modules, which
-- does not wrap.
pub symbol_count_lem :
    (im : Image) (t : Table)
    → parse im ≡ ok t
    → (length t.modules ≤ max_modules)
      × (t.symbol_count ≡ symbols_of t.modules)
      × (t.symbol_count ≤ length t.modules * max_symbols)
symbol_count_lem im t e = elim (parse-IsRead im t e) [
  | inl nothing ↦ rw nothing (omega arith)
  | inr (width, _, r) ↦ omega (arith, r.few, r.summed, r.bounded)
]

All_at {ℓ κ} :
    {A : Type ℓ} (P : A → Type κ) (xs : List A) (i : ℕ) (x : A)
    → All P xs
    → get_elem? xs i ≡ some x
    → P x
All_at P [] i x a e = absurd (cc)
All_at P (y ∷ ys) zero x a e = let same : y ≡ x = cc in subst P same a.0
All_at P (y ∷ ys) (suc i) x a e = All_at P ys i x a.1 e

-- The module of a table that was read is enumerated to as many symbols as it was counted to have, by
-- name and by ordinal, whatever the capacity is that sufficed.
pub enumerate-parse :
    (im : Image) (t : Table) (i : ℕ) (m : Module) (capacity : ℕ) (ss : List Symbol)
    → parse im ≡ ok t
    → get_elem? t.modules i ≡ some m
    → enumerate im m capacity ≡ ok ss
    → (length ss ≡ m.named_count + m.ordinal_count) × (by_ordinals ss ≡ m.ordinal_count)
unfolding enumerate count_thunks
enumerate-parse im t i m capacity ss e at f = elim (parse-IsRead im t e) [
  | inl nothing ↦ absurd (let found = rw nothing at at in cc)
  | inr (width, known, r) ↦
      let c = All_at (IsCounted im width) t.modules i m r.counted at in
      let source = source_rva m.lookup_table_rva m.address_table_rva in
      let (w, read, rest) = >>=-eq-ok (thunk_bytes im) _ f in
      let same : w ≡ width = cc in
      let (_, _, walked) = >>=-eq-ok (refuse (source == 0) malformed) _ rest in
      let again : enumerate_from im source m.address_table_rva width capacity 0 max_symbols
          ≡ ok ss =
        rw same at walked in
      omega (
        arith,
        enumerate_from-count_from im source m.address_table_rva width capacity 0 max_symbols 0 0
            m.named_count m.ordinal_count ss c.recount again,
      )
]
