-- ===== src/ImportBind/Tests.antt =====
-- The binding of the program of Pe.Import.Tests, in an image of 160 bytes, and the theorem on the slots at it.
use ps5_homebrew_lab.Common.{
  ℕ, ◌+◌, ◌≡◌, false, List, [], ◌∷◌, length, get_elem?, replicate, some, Outcome, ok, if◌then◌else◌,
  arith, refl,
}
use ps5_homebrew_lab.Pe.Bytes.{Bytes, byte, u32}
use ps5_homebrew_lab.Pe.Import.{Symbol, Table, parse}
use ps5_homebrew_lab.Pe.Import.Tests.{small_importer, small_parse_run, small_enumerate_run}
use ps5_homebrew_lab.Pe.Reloc.{no_stats, store, write}
use ps5_homebrew_lab.Map.{Mapped, no_protection, writable}
use ps5_homebrew_lab.ImportBind.{
  Target, Write, Report, overlaps, add_target, collect_symbol, collect_symbols, collect_modules,
  apply_writes, count_kinds, check_bind, bind32,
}
use ps5_homebrew_lab.ImportBind.Slots.{Fits, Separate, Outside}
use ps5_homebrew_lab.ImportBind.Effect.{number_of, bind32-filled}
use ps5_homebrew_lab.ImportBind.Runs.{AllResolved}

abbrev mapped : Mapped
mapped = record {
  region = record {
    write_base = 0x40_0000;
    exec_base = 0x40_0000;
    bytes = 160;
    alignment = 0x1000;
  };
  memory = replicate 160 0;
  preferred_base = 0x40_0000;
  actual_base = 0x40_0000;
  image_bytes = 160;
  section_count = 1;
  entry_point = 0;
  address_bits = 32;
  relocs = no_stats;
  protection = no_protection;
  protections_applied = false;
  aliased_exec = false;
}

-- It counts its calls; an ordinal is that of data.
abbrev resolve : ℕ → Bytes → Symbol → ℕ × Outcome Target
resolve calls name symbol = (
  calls + 1,
  ok (record { address = 0x50_0000 + calls; kind = if symbol.by_ordinal then 2 else 1 }),
)

abbrev writes : List Write
writes =
    record { rva = 80; value = 0x50_0000; kind = 2 }
    ∷ record { rva = 84; value = 0x50_0001; kind = 1 }
    ∷ []

abbrev report : Report
report = record { functions = 1; data_count = 1; total = 2 }

abbrev bound_memory : Bytes
unfolding store
bound_memory = store (store (replicate 160 0) 80 4 0x50_0000) 84 4 0x50_0001

bind32_run : bind32 resolve 0 mapped small_importer ≡ (2, ok (bound_memory, writes, report))
unfolding bind32 check_bind collect_modules collect_symbols collect_symbol overlaps add_target
    apply_writes count_kinds writable write store
bind32_run = rw (small_parse_run, small_enumerate_run) refl

bind32-filled_example :
    (table : Table) × (parse small_importer ≡ ok table)
    × AllResolved resolve small_importer 0 table.modules 2 writes
    × Fits 160 writes
    × Separate writes
    × ((i : ℕ) (w : Write) → get_elem? writes i ≡ some w → u32 bound_memory w.rva ≡ w.value)
    × ((j : ℕ) → Outside j writes → byte bound_memory j ≡ byte mapped.memory j)
    × (2 ≡ length writes)
    × (1 ≡ number_of 1 writes)
    × (1 ≡ number_of 2 writes)
bind32-filled_example =
    bind32-filled resolve 0 mapped small_importer 2 bound_memory writes report (omega arith)
      bind32_run
