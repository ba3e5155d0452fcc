-- ===== src/ImportBind.antt =====
-- projects/prospero-win/src/pw_import_bind.h and pw_import_bind.c: the slots of the import tables of a PE32
-- image that is mapped get the addresses of their targets. The resolver is a parameter over a state of its own.
pub mod Slots
pub mod Runs
pub mod Effect
mod Tests
use ps5_homebrew_lab.Common.{
  ℕ, zero, suc, ◌+◌, ◌-◌, ◌^◌, Bool, true, false, not, ◌&&◌, ◌||◌, Option, none, some, List, [],
  ◌∷◌, ◌++◌, length, get_elem?, ltb, leb, ◌==◌, if◌then◌else◌, Outcome, ok, err, fault, ◌>>=◌, ◌>>◌,
  refuse, precondition, unsupported, bad_state, limit, malformed,
}
use ps5_homebrew_lab.Pe.Bytes.{Bytes}
use ps5_homebrew_lab.Pe.Image.{Directory, Image, machine_i386, magic_pe32}
use ps5_homebrew_lab.Pe.Import.{Module, Table, Symbol, parse, enumerate}
use ps5_homebrew_lab.Pe.Reloc.{write}
use ps5_homebrew_lab.Map.{Mapped, writable}

abbrev pub capacity : ℕ
capacity = 512

-- The kind is a number, which the resolver fills in: 1 for a function and 2 for data.
pub record Target : Type 0 where
  pub address : ℕ
  pub kind : ℕ

abbrev pub import_function : ℕ
import_function = 1

abbrev pub import_data : ℕ
import_data = 2

-- The slot is the place `rva` of the mapped memory.
pub record Write : Type 0 where
  pub rva : ℕ
  pub value : ℕ
  pub kind : ℕ

pub record Report : Type 0 where
  pub functions : ℕ
  pub data_count : ℕ
  pub total : ℕ

abbrev pub Collected : Type 0 → Type 0
Collected S = S × Outcome (List Write)

-- The test against the slots that are already taken.
pub overlaps : List Write → ℕ → Bool
overlaps [] rva = false
overlaps (w ∷ ws) rva = (ltb rva (w.rva + 4) && ltb w.rva (rva + 4)) || overlaps ws rva

abbrev pub bad_target : Target → Bool
bad_target t =
    t.address == 0
    || ltb (2 ^ 32 - 1) t.address
    || not (t.kind == import_function || t.kind == import_data)

pub add_target {ℓ} : {S : Type ℓ} → List Write → ℕ → S × Outcome Target → S × Outcome (List Write)
add_target writes rva (s, err e) = (s, err e)
add_target writes rva (s, fault) = (s, fault)
add_target writes rva (s, ok t) =
    if bad_target t
    then (s, err precondition)
    else (s, ok (writes ++ (record { rva = rva; value = t.address; kind = t.kind } ∷ [])))

abbrev pub continue_with : {S : Type 0} → Collected S → (S → List Write → Collected S) → Collected S
continue_with (s, ok writes) rest = rest s writes
continue_with (s, err e) rest = (s, err e)
continue_with (s, fault) rest = (s, fault)

module _ {S : Type 0} (resolve : S → Bytes → Symbol → S × Outcome Target) (m : Mapped) where
  -- One symbol of a module.
  pub collect_symbol : S → Bytes → List Write → Symbol → Collected S
  collect_symbol s name writes symbol =
      if length writes == capacity then (s, err limit) else elim (writable m symbol.thunk_rva 4) [
        | none ↦ (s, err malformed)
        | some slot ↦
            if overlaps writes symbol.thunk_rva
            then (s, err malformed)
            else add_target writes symbol.thunk_rva (resolve s name symbol)
      ]

  pub collect_symbols : S → Bytes → List Write → List Symbol → Collected S
  collect_symbols s name writes [] = (s, ok writes)
  collect_symbols s name writes (symbol ∷ symbols) =
      continue_with (collect_symbol s name writes symbol)
        (λ t next. collect_symbols t name next symbols)

  abbrev pub collect_module : S → Bytes → List Write → Outcome (List Symbol) → Collected S
  collect_module s name writes (ok symbols) = collect_symbols s name writes symbols
  collect_module s name writes (err e) = (s, err e)
  collect_module s name writes fault = (s, fault)

  pub collect_modules : Image → S → List Write → List Module → Collected S
  collect_modules im s writes [] = (s, ok writes)
  collect_modules im s writes (i ∷ is) =
      continue_with (collect_module s i.name writes (enumerate im i capacity))
        (λ t next. collect_modules im t next is)

-- The writes, which come behind all resolutions.
pub apply_writes : Bytes → List Write → Outcome Bytes
apply_writes memory [] = ok memory
apply_writes memory (w ∷ ws) = write memory w.rva 4 w.value >>= λ next. apply_writes next ws

pub count_kinds : List Write → Report
count_kinds [] = record { functions = 0; data_count = 0; total = 0 }
count_kinds (w ∷ ws) =
    let r = count_kinds ws in
    if w.kind == import_function
    then record { functions = r.functions + 1; data_count = r.data_count; total = r.total + 1 }
    else record { functions = r.functions; data_count = r.data_count + 1; total = r.total + 1 }

abbrev pub delay_bytes : Image → ℕ
delay_bytes im = elim (get_elem? im.directories 13) [ none ↦ 0 | some d ↦ d.size ]

-- The tests before the import table is read.
pub check_bind : Image → Mapped → Outcome (Unit {0})
check_bind im m = do
  refuse
      (not (im.machine == machine_i386)
        || not (im.optional_magic == magic_pe32)
        || not (m.address_bits == 32))
      unsupported
  refuse
      (m.protections_applied || m.region.write_base == 0 || not (m.image_bytes == im.size_of_image))
      bad_state
  refuse (not (delay_bytes im == 0)) unsupported

abbrev pub parse_table : Image → Mapped → Outcome Table
parse_table im m = check_bind im m >>= λ _.
    parse im >>= λ table. if ltb capacity table.symbol_count then err limit else ok table

-- The image's memory, the writes and the report of a call that succeeds.
abbrev pub Bound : Type 0
Bound = Bytes × List Write × Report

abbrev pub finish_bind {ℓ} : {S : Type ℓ} → Mapped → S × Outcome (List Write) → S × Outcome Bound
finish_bind m (s, ok writes) =
    (s, apply_writes m.memory writes >>= λ next. ok (next, writes, count_kinds writes))
finish_bind m (s, err e) = (s, err e)
finish_bind m (s, fault) = (s, fault)

abbrev pub bind_table :
    {S : Type 0}
    → (S → Bytes → Symbol → S × Outcome Target)
    → S
    → Mapped
    → Image
    → Outcome Table
    → S × Outcome Bound
bind_table resolve s m im (ok table) =
    finish_bind m (collect_modules resolve m im s [] table.modules)
bind_table resolve s m im (err e) = (s, err e)
bind_table resolve s m im fault = (s, fault)

pub bind32 :
    {S : Type 0}
    → (S → Bytes → Symbol → S × Outcome Target)
    → S
    → Mapped
    → Image
    → S × Outcome Bound
bind32 resolve s m im = bind_table resolve s m im (parse_table im m)
