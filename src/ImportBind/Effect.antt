-- ===== src/ImportBind/Effect.antt =====
-- What a call of pw_import_bind32 that succeeds has done to the memory of the image.
use ps5_homebrew_lab.Common.{
  ℕ, zero, suc, ◌+◌, ◌≤◌, ◌<◌, ◌≡◌, some, List, [], ◌∷◌, length, get_elem?, Outcome, ok, err, fault,
  arith, refl, sym, subst, ◌∙◌, >>=-eq-ok, ◌==◌, if◌then◌else◌,
}
use native.Mathlib.Nat.{mod-eq_of_lt}
use ps5_homebrew_lab.Pe.Bytes.{Bytes, byte, u32}
use ps5_homebrew_lab.Pe.Image.{Image}
use ps5_homebrew_lab.Pe.Import.{Module, Symbol, Table, parse}
use ps5_homebrew_lab.Pe.Reloc.{store}
use ps5_homebrew_lab.Pe.Reloc.Store.{length-store, byte-store, u32-store, write_lem}
use ps5_homebrew_lab.Map.{Mapped}
use ps5_homebrew_lab.ImportBind.{
  Target, Write, Report, Collected, import_function, import_data, apply_writes, count_kinds,
  collect_modules, check_bind, parse_table, finish_bind, bind_table, bind32,
}
use ps5_homebrew_lab.ImportBind.Slots.{
  Away, Outside, Separate, Fits, AllKnown, IsBindable, collect_modules-IsBindable,
}
use ps5_homebrew_lab.ImportBind.Runs.{AllResolved, collect_modules-AllResolved}

Away-Outside : (rva k : ℕ) (ws : List Write) → Away rva ws → k < 4 → Outside (rva + k) ws
Away-Outside rva k [] a h = refl
Away-Outside rva k (w ∷ ws) a h = (omega (arith, a.0), Away-Outside rva k ws a.1 h)

u32-same :
    (m out : Bytes) (o : ℕ)
    → ((k : ℕ) → k < 4 → byte out (o + k) ≡ byte m (o + k))
    → u32 out o ≡ u32 m o
unfolding u32
u32-same m out o h =
    let zero_place : o + 0 ≡ o = omega arith in
    let first : byte out o ≡ byte m o = rw zero_place at (h 0 (omega arith)) in
    omega (arith, first, h 1 (omega arith), h 2 (omega arith), h 3 (omega arith))

-- The writes: every slot holds its value, and the other bytes are kept.
record Applied (m : Bytes) (ws : List Write) (out : Bytes) : Type 0 where
  kept : length out ≡ length m
  outside : (j : ℕ) → Outside j ws → byte out j ≡ byte m j
  filled : (i : ℕ) (w : Write) → get_elem? ws i ≡ some w → u32 out w.rva ≡ w.value

first_or :
    (P : Write → Type 0) (w : Write) (ws : List Write)
    → P w
    → ((i : ℕ) (x : Write) → get_elem? ws i ≡ some x → P x)
    → (i : ℕ) (x : Write) → get_elem? (w ∷ ws) i ≡ some x
    → P x
first_or P w ws first rest zero x e = let same : w ≡ x = cc in subst P same first
first_or P w ws first rest (suc i) x e = rest i x e

apply_writes-Applied :
    (n : ℕ) (m : Bytes) (ws : List Write)
    → Fits n ws
    → Separate ws
    → n ≤ length m
    → (out : Bytes) × (apply_writes m ws ≡ ok out) × Applied m ws out
unfolding apply_writes
apply_writes-Applied n m [] f s room =
    (m, refl, record { kept = refl; outside = λ j h. refl; filled = λ i w e. cc })
apply_writes-Applied n m (w ∷ ws) (inside, real, word, f) (away, s) room =
    let next = store m w.rva 4 w.value in
    let size = length-store m w.rva 4 w.value in
    let (out, rest, a) = apply_writes-Applied n next ws f s (omega (arith, size)) in
    let stored : u32 out w.rva ≡ w.value =
      u32-same next out w.rva (λ k h. a.outside (w.rva + k) (Away-Outside w.rva k ws away h))
      ∙ u32-store m w.rva w.value (omega arith)
      ∙ mod-eq_of_lt word in
    (
      out,
      rw (write_lem m w.rva 4 w.value (omega arith)) rest,
      record {
        kept = a.kept ∙ size;
        outside = λ j h. a.outside j h.1 ∙ byte-store m w.rva 4 w.value j (omega arith) h.0;
        filled = first_or (λ x. u32 out x.rva ≡ x.value) w ws stored a.filled;
      },
    )

-- The writes of a kind.
pub number_of : ℕ → List Write → ℕ
number_of kind [] = 0
number_of kind (w ∷ ws) = (if w.kind == kind then 1 else 0) + number_of kind ws

count_kinds_lem :
    (ws : List Write)
    → AllKnown ws
    → ((count_kinds ws).total ≡ length ws)
      × ((count_kinds ws).functions ≡ number_of import_function ws)
      × ((count_kinds ws).data_count ≡ number_of import_data ws)
unfolding count_kinds number_of
count_kinds_lem [] known = (refl, refl, refl)
count_kinds_lem (w ∷ ws) known = ground (arith, count_kinds_lem ws known.1)

parse_table-parse :
    (im : Image) (m : Mapped) (table : Table) → parse_table im m ≡ ok table → parse im ≡ ok table
parse_table-parse im m table e =
    let (_, _, rest) = >>=-eq-ok (check_bind im m) _ e in
    let (t, parsed, last) = >>=-eq-ok (parse im) _ rest in
    let same : t ≡ table = ground arith in rw (← same) parsed

-- What is known of a binding that succeeded.
record IsBound {S : Type 0} (resolve : S → Bytes → Symbol → S × Outcome Target) (s : S) (m : Mapped)
    (im : Image) (modules : List Module) (s' : S) (memory : Bytes) (ws : List Write) (r : Report)
    : Type 0 where
  pub bindable : IsBindable m ws
  pub resolved : AllResolved resolve im s modules s' ws
  pub applied : Applied m.memory ws memory
  pub counted : r ≡ count_kinds ws

finish_filled :
    {S : Type 0} (resolve : S → Bytes → Symbol → S × Outcome Target) (s : S) (m : Mapped)
    (im : Image) (modules : List Module) (c : Collected S) (s' : S) (memory : Bytes)
    (ws : List Write) (r : Report)
    → ((s₁ : S) (ws₁ : List Write)
        → c ≡ (s₁, ok ws₁)
        → IsBindable m ws₁ × AllResolved resolve im s modules s₁ ws₁)
    → m.image_bytes ≤ length m.memory
    → finish_bind m c ≡ (s', ok (memory, ws, r))
    → IsBound resolve s m im modules s' memory ws r
finish_filled resolve s m im modules (t, err e) s' memory ws r good room h = cc
finish_filled resolve s m im modules (t, fault) s' memory ws r good room h = cc
finish_filled resolve s m im modules (t, ok ws₁) s' memory ws r good room h =
    let (g, all) = good t ws₁ refl in
    let (out, done, a) = apply_writes-Applied m.image_bytes m.memory ws₁ g.0.0 g.0.1 room in
    let h₁ = rw done at h in
    let state : t ≡ s' = cc in
    let writes : ws₁ ≡ ws = cc in
    let bytes : out ≡ memory = cc in
    let counts : count_kinds ws₁ ≡ r = cc in
    rw (← writes, ← bytes, ← state)
      (record { bindable = g; resolved = all; applied = a; counted = sym counts })

table_filled :
    {S : Type 0} (resolve : S → Bytes → Symbol → S × Outcome Target) (s : S) (m : Mapped)
    (im : Image) (o : Outcome Table) (s' : S) (memory : Bytes) (ws : List Write) (r : Report)
    → m.image_bytes ≤ length m.memory
    → bind_table resolve s m im o ≡ (s', ok (memory, ws, r))
    → (table : Table) × (o ≡ ok table) × IsBound resolve s m im table.modules s' memory ws r
table_filled resolve s m im (err code) s' memory ws r room e = cc
table_filled resolve s m im fault s' memory ws r room e = cc
table_filled resolve s m im (ok table) s' memory ws r room e = (
  table,
  refl,
  finish_filled resolve s m im table.modules (collect_modules resolve m im s [] table.modules) s'
      memory ws r
      (λ s₁ ws₁ done.
        let (new, all, run) =
          collect_modules-AllResolved resolve m im s [] table.modules s₁ ws₁ done in
        let same : ws₁ ≡ new = all in
        (
          collect_modules-IsBindable resolve m im s [] table.modules s₁ ws₁ done
              ((refl, refl), refl),
          rw same run,
        ))
      room e,
)

-- In a mapped image whose memory holds it whole, a call that succeeds has read the import table; the resolver was
-- called once for each symbol of each module, in the order of the table, and each call gave the target of one
-- write, to the slot of the symbol. Every slot holds its target; the slots lie in the image and do not overlap, the
-- targets are no NULL, every byte outside of the slots is kept, and the report counts the writes of each kind.
pub bind32-filled :
    {S : Type 0} (resolve : S → Bytes → Symbol → S × Outcome Target) (s : S) (m : Mapped)
    (im : Image) (s' : S) (memory : Bytes) (ws : List Write) (r : Report)
    → m.image_bytes ≤ length m.memory
    → bind32 resolve s m im ≡ (s', ok (memory, ws, r))
    → (table : Table) × (parse im ≡ ok table)
      × AllResolved resolve im s table.modules s' ws
      × Fits m.image_bytes ws
      × Separate ws
      × ((i : ℕ) (w : Write) → get_elem? ws i ≡ some w → u32 memory w.rva ≡ w.value)
      × ((j : ℕ) → Outside j ws → byte memory j ≡ byte m.memory j)
      × (r.total ≡ length ws)
      × (r.functions ≡ number_of import_function ws)
      × (r.data_count ≡ number_of import_data ws)
unfolding bind32
bind32-filled resolve s m im s' memory ws r room e =
    let (table, tabled, w) = table_filled resolve s m im (parse_table im m) s' memory ws r room e in
    let (all, functions, data_count) = count_kinds_lem ws w.bindable.1 in
    (
      table,
      parse_table-parse im m table tabled,
      w.resolved,
      w.bindable.0.0,
      w.bindable.0.1,
      w.applied.filled,
      w.applied.outside,
      rw w.counted all,
      rw w.counted functions,
      rw w.counted data_count,
    )
