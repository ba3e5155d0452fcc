-- ===== src/Segment.antt =====
-- projects/prospero-win/src/pw_segment.h and pw_segment.c: segment descriptors as words, and selectors.
-- The fields of a word share no bit, so that `|=` is a sum. The pointers are present.
pub mod Laws
mod Tests
use ps5_homebrew_lab.Common.{ℕ, ◌+◌, ◌*◌, ◌/◌, ◌%◌, ◌^◌, ◌||◌, ltb, ◌==◌, if◌then◌else◌}

pub record Fields : Type 0 where
  pub base : ℕ
  pub limit : ℕ
  pub type : ℕ
  pub dpl : ℕ
  pub present : ℕ
  pub long_mode : ℕ
  pub default32 : ℕ
  pub page_granular : ℕ

-- field ? 1u : 0u
abbrev pub bit : ℕ → ℕ
bit field = if field == 0 then 0 else 1

pub encode : Fields → ℕ
encode f =
    if ltb 0xfffff f.limit || ltb 31 f.type || ltb 3 f.dpl
    then 0
    else f.limit % 2 ^ 16
      + f.base % 2 ^ 24 * 2 ^ 16
      + f.type % 2 ^ 5 * 2 ^ 40
      + f.dpl % 2 ^ 2 * 2 ^ 45
      + bit f.present * 2 ^ 47
      + f.limit / 2 ^ 16 % 2 ^ 4 * 2 ^ 48
      + bit f.long_mode * 2 ^ 53
      + bit f.default32 * 2 ^ 54
      + bit f.page_granular * 2 ^ 55
      + f.base / 2 ^ 24 % 2 ^ 8 * 2 ^ 56

pub decode : ℕ → Fields
decode descriptor = record {
  limit = descriptor % 2 ^ 16 + descriptor / 2 ^ 48 % 2 ^ 4 * 2 ^ 16;
  base = descriptor / 2 ^ 16 % 2 ^ 24 + descriptor / 2 ^ 56 % 2 ^ 8 * 2 ^ 24;
  type = descriptor / 2 ^ 40 % 2 ^ 5;
  dpl = descriptor / 2 ^ 45 % 2 ^ 2;
  present = descriptor / 2 ^ 47 % 2;
  long_mode = descriptor / 2 ^ 53 % 2;
  default32 = descriptor / 2 ^ 54 % 2;
  page_granular = descriptor / 2 ^ 55 % 2;
}

pub compat32_code : ℕ
compat32_code = encode (record {
  base = 0;
  limit = 0xfffff;
  type = 27;
  dpl = 3;
  present = 1;
  long_mode = 0;
  default32 = 1;
  page_granular = 1;
})

pub compat32_data : ℕ
compat32_data = encode (record {
  base = 0;
  limit = 0xfffff;
  type = 19;
  dpl = 3;
  present = 1;
  long_mode = 0;
  default32 = 1;
  page_granular = 1;
})

pub ldt_selector : ℕ → ℕ → ℕ
ldt_selector index rpl = (index * 2 ^ 3 % 2 ^ 32 + 4 + rpl % 2 ^ 2) % 2 ^ 16
