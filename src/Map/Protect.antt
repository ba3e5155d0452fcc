-- ===== src/Map/Protect.antt =====
-- page_protection and pw_map_finalize_protections of projects/prospero-win/src/pw_map.c: the sweep over the
-- pages, which merges pages of one protection into one call of the backend.
pub mod Laws
pub mod Union
pub mod Ends
use ps5_homebrew_lab.Common.{
  ℕ, zero, suc, ◌+◌, ◌-◌, ◌%◌, ◌^◌, bit_or, Bool, true, false, not, ◌&&◌, ◌||◌, Option, none, some,
  List, [], ◌∷◌, ltb, leb, ◌==◌, if◌then◌else◌, Outcome, ok, err, fault, precondition, bad_state,
  unsupported, min,
}
use ps5_homebrew_lab.Pe.Layout.{Layout, LayoutSection, has, prot_read, prot_write, prot_exec}
use ps5_homebrew_lab.Map.{
  Region, Backend, Mapped, Protection, no_protection, backend_valid, cap_protect,
}

-- The sections over a page, in the order of their addresses: the protection and the contributors.
pub contribute : ℕ → ℕ → List LayoutSection → ℕ × ℕ → ℕ × ℕ
contribute page_start page_end [] acc = acc
contribute page_start page_end (p ∷ ps) (protection, contributors) =
    let next =
      if leb (p.rva + p.mapped_bytes) page_start
      then (protection, contributors)
      else (bit_or protection p.protection, (contributors + 1) % 2 ^ 32) in
    let rest = contribute page_start page_end ps next in
    if leb page_end p.rva then (protection, contributors) else rest

-- The union of the protections over one page; a page ends below 2 ^ 64.
pub page_protection : Layout → ℕ → ℕ → ℕ → ℕ × ℕ
page_protection l page_start page_bytes header_bytes =
    contribute page_start (page_start + page_bytes) l.sections
      (if ltb page_start header_bytes then (prot_read, 1) else (0, 0))

-- The counters of a page; they are uint32_t.
pub count_page : Protection → ℕ → ℕ → Protection
count_page c protection contributors = record {
  protect_calls = c.protect_calls;
  pages = (c.pages + 1) % 2 ^ 32;
  merged_pages = (c.merged_pages + (if ltb 1 contributors then 1 else 0)) % 2 ^ 32;
  wx_pages =
      (c.wx_pages + (if has protection prot_write && has protection prot_exec then 1 else 0))
      % 2 ^ 32;
  no_access_pages = (c.no_access_pages + (if protection == 0 then 1 else 0)) % 2 ^ 32;
}

abbrev pub count_call : Protection → Protection
count_call c = record {
  protect_calls = (c.protect_calls + 1) % 2 ^ 32;
  pages = c.pages;
  merged_pages = c.merged_pages;
  wx_pages = c.wx_pages;
  no_access_pages = c.no_access_pages;
}

-- What the calls have left: the state, the counters, and the status.
abbrev pub Sweep : Type 0 → Type 0
Sweep S = S × Protection × Outcome (Unit {0})

module _ {S : Type 0} where
  -- A run of pages is over.
  pub called : Protection → S × Outcome (Unit {0}) → Sweep S
  called c (s, ok _) = (s, count_call c, ok tt)
  called c (s, err e) = (s, c, err e)
  called c (s, fault) = (s, c, fault)

  abbrev pub resume : Sweep S → (S → Protection → Sweep S) → Sweep S
  resume (s, c, ok _) rest = rest s c
  resume (s, c, err e) rest = (s, c, err e)
  resume (s, c, fault) rest = (s, c, fault)

  module _ (protect : S → ℕ → ℕ → ℕ → S × Outcome (Unit {0})) (l : Layout)
      (page image_bytes : ℕ) where
    -- The start and the protection of the run after a page at the cursor: have_run is `some`.
    pub turn :
        ℕ → ℕ → Option (ℕ × ℕ) → S → Protection → (S → Protection → ℕ × ℕ → Sweep S) → Sweep S
    turn cursor protection none s c rest = rest s c (cursor, protection)
    turn cursor protection (some (start, running)) s c rest =
        if protection == running
        then rest s c (start, running)
        else resume (called c (protect s start (cursor - start) running))
            (λ next counted. rest next counted (cursor, protection))

    pub last_run : Option (ℕ × ℕ) → S → Protection → Sweep S
    last_run none s c = (s, c, ok tt)
    last_run (some (start, running)) s c = called c (protect s start (image_bytes - start) running)

    -- The fuel bounds the pages; without it the sweep is no result of the source.
    pub sweep : ℕ → ℕ → Option (ℕ × ℕ) → S → Protection → Sweep S
    sweep zero cursor run s c = if ltb cursor image_bytes then (s, c, fault) else last_run run s c
    sweep (suc fuel) cursor run s c = elim (ltb cursor image_bytes) [
      | false ↦ last_run run s c
      | true ↦
          let here = page_protection l cursor page l.header_bytes in
          turn cursor here.0 run s (count_page c here.0 here.1) (λ next counted running.
            sweep fuel (cursor + min page (image_bytes - cursor)) (some running) next counted)
    ]

-- protections_applied is set behind a sweep that succeeded; it was clear before.
abbrev pub applied : Outcome (Unit {0}) → Bool
applied (ok _) = true
applied (err e) = false
applied fault = false

-- The mapping behind the sweep.
abbrev pub swept : {S : Type 0} → Mapped → Sweep S → S × Mapped × Outcome (Unit {0})
swept m (s, c, o) = (s, record m { protection = c; protections_applied = applied o }, o)

pub finalize : (b : Backend) → b.State → Mapped → Layout → b.State × Mapped × Outcome (Unit {0})
finalize b s m l =
    if not (backend_valid b)
    then (s, m, err precondition)
    else if m.region.write_base == 0 || m.protections_applied
    then (s, m, err bad_state)
    else if not (has b.capabilities cap_protect)
    then (s, m, err unsupported)
    else elim b.protect [
      | none ↦ (s, m, err unsupported)
      | some protect ↦ swept m (
          sweep (λ t start bytes p. protect t m.region start bytes p) l b.page_bytes m.image_bytes
            m.image_bytes 0 none s no_protection)
    ]
