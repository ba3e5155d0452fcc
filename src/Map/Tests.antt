-- ===== src/Map/Tests.antt =====
-- The mapping of the program of Pe.Image.Tests by a backend that reserves zeros at a fixed address, and the
-- theorems on the mapper at it.
use ps5_homebrew_lab.Common.{
  ℕ, ◌+◌, ◌-◌, ◌%◌, ◌≤◌, ◌<◌, ◌≡◌, ◌⊎◌, ◌↔◌, not, ◌&&◌, ◌||◌, true, false, ltb, leb, ◌==◌,
  if◌then◌else◌, length, replicate, length-replicate, some, none, Outcome, ok, err, refl, arith,
  vm_error, subst,
}
use ps5_homebrew_lab.Common.Digits.{digit}
use ps5_homebrew_lab.Pe.Bytes.{Bytes, byte}
use ps5_homebrew_lab.Pe.Image.{power_of_two, directory}
use ps5_homebrew_lab.Pe.Image.Tests.{program, program-IsWellFormed}
use ps5_homebrew_lab.Pe.Layout.Tests.{mapping, plan_run}
use ps5_homebrew_lab.Pe.Reloc.{no_stats, apply, apply_to, delta_of}
use ps5_homebrew_lab.Map.{
  Region, Backend, backend_valid, Mapped, no_protection, fill, map_image, finish_reserve,
  finish_commit, finish_fill, finish_reloc, unsuitable, reserve_for,
}
use ps5_homebrew_lab.Map.Contents.{expected, fill-expected}
use ps5_homebrew_lab.Map.Protect.{finalize}
use ps5_homebrew_lab.Map.Protect.Union.{Due}
use ps5_homebrew_lab.Map.Protect.Ends.{finalize_protected}
use ps5_homebrew_lab.Map.Release.{
  IsReleased, IsSuitable, IsMapping, map_image-IsReleased, map_image-IsSuitable,
}
use ps5_homebrew_lab.Map.Verify.{Report, verify}
use ps5_homebrew_lab.Map.Verify.Laws.{IsClean}
use ps5_homebrew_lab.Map.Verify.Fill.{verify-fill}

-- The state of the backend is the protection of every address.
abbrev Pages : Type 0
Pages = ℕ → ℕ

abbrev region : Region
region = record {
  write_base = 0x40_0000;
  exec_base = 0x40_0000;
  bytes = 0x3000;
  alignment = 0x1000;
}

abbrev fresh : Bytes
fresh = replicate 0x3000 0

abbrev protect : Pages → Region → ℕ → ℕ → ℕ → Pages × Outcome (Unit {0})
protect s r start bytes p = ((λ j. if leb start j && ltb j (start + bytes) then p else s j), ok tt)

abbrev backend : Backend
backend = record {
  State = Pages;
  capabilities = 2;
  page_bytes = 0x1000;
  reserve = λ s bytes alignment. (s, ok (region, fresh));
  reserve_at = none;
  commit = λ s r start bytes p. (s, ok tt);
  protect = some protect;
  release = λ s r. (s, ok tt);
}

room : 0x3000 ≤ length fresh
room = omega (arith, length-replicate {A = ℕ} 0x3000 0)

fill-expected_example :
    (out : Bytes) × (fill fresh program.bytes mapping ≡ ok out)
    × (length out ≡ length fresh)
    × ((j : ℕ) → j < 0x3000 → byte out j ≡ expected program.bytes mapping j)
fill-expected_example = fill-expected program mapping fresh program-IsWellFormed plan_run room

abbrev mapped : Mapped
mapped = record {
  region = region;
  memory = (fill-expected program mapping fresh program-IsWellFormed plan_run room).0;
  preferred_base = 0x40_0000;
  actual_base = 0x40_0000;
  image_bytes = 0x3000;
  section_count = 2;
  entry_point = 0x1000;
  address_bits = 32;
  relocs = no_stats;
  protection = no_protection;
  protections_applied = false;
  aliased_exec = false;
}

verify-fill_example :
    (r : Report) × (verify mapped mapped.memory program mapping ≡ ok r) × IsClean 2 r
verify-fill_example =
    verify-fill program mapping fresh mapped program-IsWellFormed plan_run room
      (fill-expected program mapping fresh program-IsWellFormed plan_run room).1 refl (omega arith)
      refl

abbrev no_access : Pages
no_access j = 0

backend_valid_run : backend_valid backend ≡ true
unfolding backend_valid power_of_two
backend_valid_run = refl

protect_law :
    (s : Pages) (start bytes p : ℕ) (s' : Pages)
    → protect s region start bytes p ≡ (s', ok tt)
    → (j : ℕ) → s' j ≡ (if leb start j && ltb j (start + bytes) then p else s j)
protect_law s start bytes p s' e j =
    subst
      (λ (t : Pages × Outcome (Unit {0})).
        t.0 j ≡ (if leb start j && ltb j (start + bytes) then p else s j))
      e refl

finalize_protected_example :
    (s' : Pages) × (m' : Mapped) × (finalize backend no_access mapped mapping ≡ (s', m', ok tt))
    × (m'.protections_applied ≡ true)
    × ((j k : ℕ) → j < 0x3000 → (digit k (s' j) ≡ 1) ↔ Due mapping 0x1000 (j - j % 0x1000) k)
finalize_protected_example =
    finalize_protected backend (λ s j. s j) protect no_access mapped program mapping
      program-IsWellFormed plan_run backend_valid_run refl refl protect_law
      (λ s start bytes p. refl) (omega arith) refl

-- The same backend, where memory cannot be committed.
abbrev full_backend : Backend
full_backend = record backend { commit = λ s r start bytes p. (s, err vm_error) }

full_valid : backend_valid full_backend ≡ true
unfolding backend_valid power_of_two
full_valid = refl

-- The guard of the call, which passes.
guard_run :
    (b : Backend)
    → backend_valid b ≡ true
    → (not (backend_valid b) || 0x3000 == 0 || length mapping.sections == 0) ≡ false
guard_run b e = rw e refl

full_run : map_image full_backend no_access program mapping ≡ (no_access, err vm_error)
unfolding map_image finish_reserve finish_commit unsuitable
full_run = rw (guard_run full_backend full_valid) refl

map_image-IsReleased_example :
    IsReleased full_backend no_access region no_access
    ⊎ IsReleased full_backend no_access region no_access
map_image-IsReleased_example =
    map_image-IsReleased full_backend no_access program mapping no_access region fresh no_access
      vm_error (guard_run full_backend full_valid) refl full_run

map_run : map_image backend no_access program mapping ≡ (no_access, ok mapped)
unfolding map_image finish_reserve finish_commit finish_fill finish_reloc unsuitable directory apply
    apply_to delta_of
map_run =
    rw
      (
        guard_run backend backend_valid_run,
        (fill-expected program mapping fresh program-IsWellFormed plan_run room).1,
      )
      refl

map_image-IsSuitable_example :
    (s₁ : Pages) × (memory : Bytes) × (reserve_for backend no_access mapping
      ≡ (s₁, ok (region, memory)))
    × (backend.commit s₁ region 0 0x3000 3 ≡ (no_access, ok tt))
    × IsSuitable backend program mapping region
    × IsMapping backend program mapping region mapped
map_image-IsSuitable_example =
    map_image-IsSuitable backend no_access program mapping no_access mapped map_run
