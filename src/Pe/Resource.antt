-- ===== src/Pe/Resource.antt =====
-- projects/prospero-win/src/pe_resource.h and pe_resource.c: the resources of an image, which are found by number
-- or by name. A place in the file stands for the pointer to it.
pub mod Safety
pub mod Strings
pub mod Scan
pub mod Language
mod Tests
use ps5_homebrew_lab.Common.{
  ℕ, zero, suc, ◌+◌, ◌-◌, ◌*◌, ◌/◌, ◌%◌, ◌^◌, bit_and, Bool, true, false, not, ◌&&◌, ◌||◌, Option,
  none, some, List, [], ◌∷◌, length, ltb, leb, ◌==◌, if◌then◌else◌, Outcome, ok, err, ◌>>=◌, ◌>>◌,
  refuse, precondition, unsupported, malformed, overflow, limit, not_found, truncated,
}
use ps5_homebrew_lab.Pe.Bytes.{Bytes, read_u16, read_u32}
use ps5_homebrew_lab.Pe.Image.{Directory, Image, directory, file_offset}

pub record Resource : Type 0 where
  pub offset : ℕ
  pub size : ℕ
  pub codepage : ℕ
  pub language : ℕ

-- The bit that tells names from numbers, and tables from data.
abbrev pub high_bit : ℕ
high_bit = 0x8000_0000

abbrev pub is_high : ℕ → Bool
is_high value = leb high_bit value

abbrev pub low_bits : ℕ → ℕ
low_bits value = value % high_bit

pub ascii_upper : ℕ → ℕ
ascii_upper c = if leb 0x61 c && leb c 0x7a then c - 0x20 else c

pub span_in : Image → ℕ → ℕ → Option Directory → Outcome ℕ
span_in im offset n none = err not_found
span_in im offset n (some d) = do
  refuse (d.virtual_address == 0 || d.size == 0) not_found
  refuse (ltb d.size offset || ltb (d.size - offset) n) truncated
  refuse (ltb (2 ^ 32) (d.virtual_address + offset + n)) overflow
  file_offset im ((d.virtual_address + offset) % 2 ^ 32) n

-- n bytes of the resource directory.
pub span : Image → ℕ → ℕ → Outcome ℕ
span im offset n = span_in im offset n (directory im 2)

-- A table of the tree: the entries with names, all entries, and where the entries start in the file.
pub read_table : Image → ℕ → Outcome (ℕ × ℕ × ℕ)
read_table im table = do
  p ← span im table 16
  names ← read_u16 im.bytes (p + 12)
  ids ← read_u16 im.bytes (p + 14)
  refuse (ltb 4096 (names + ids)) limit
  refuse (ltb (2 ^ 32 - 1 - 16) table) overflow
  at ← span im (table + 16) ((names + ids) * 8)
  ok (names, names + ids, at)

-- best, value, key and last of the loop over the entries.
pub record Choice : Type 0 where
  pub best : ℕ
  pub value : ℕ
  pub key : ℕ
  pub last : ℕ

abbrev pub score : ℕ → Bool → ℕ → ℕ
score id language name =
    if name == id then 0 else if language then (if name == 0 then 1 else 2) else 2 ^ 32 - 1

-- One entry.
pub choose : ℕ → Bool → ℕ → ℕ → ℕ → ℕ → Choice → Outcome Choice
choose id language names i name offset c =
    if ltb i names
    then (if is_high name then ok c else err malformed)
    else if is_high name || (ltb names i && leb name c.last)
    then err malformed
    else if ltb (score id language name) c.best
    then ok (record { best = score id language name; value = offset; key = name; last = name })
    else ok (record c { last = name })

pub scan_entries : Image → ℕ → Bool → ℕ → ℕ → ℕ → ℕ → Choice → Outcome Choice
scan_entries im id language names at i zero c = ok c
scan_entries im id language names at i (suc left) c = do
  name ← read_u32 im.bytes (at + i * 8)
  offset ← read_u32 im.bytes (at + i * 8 + 4)
  next ← choose id language names i name offset c
  scan_entries im id language names at (i + 1) left next

abbrev pub no_choice : Choice
no_choice = record { best = 2 ^ 32 - 1; value = 0; key = 0; last = 0 }

-- The target and the key that is selected.
pub entry : Image → ℕ → ℕ → Bool → Outcome (ℕ × ℕ)
entry im table id language = do
  (names, count, at) ← read_table im table
  c ← scan_entries im id language names at 0 count no_choice
  if c.best == 2 ^ 32 - 1 then err not_found else ok (c.value, c.key)

-- The 16-bit units at a place against the bytes of a name, which has as many.
pub same_text : Image → ℕ → Bytes → Outcome Bool
same_text im at [] = ok true
same_text im at (x ∷ xs) = do
  u ← read_u16 im.bytes at
  let rest = same_text im (at + 2) xs
  if ascii_upper u == ascii_upper x then rest else ok false

-- Whether a named entry has the name.
pub entry_matches : Image → ℕ → Bytes → Outcome Bool
entry_matches im key name = do
  refuse (not (is_high key)) malformed
  t ← span im (low_bits key) 2
  units ← read_u16 im.bytes t
  text ← span im (low_bits key + 2) (units * 2)
  if units == length name then same_text im text name else ok false

pub scan_names : Image → Bytes → ℕ → ℕ → ℕ → Outcome ℕ
scan_names im name at i zero = err not_found
scan_names im name at i (suc left) = do
  key ← read_u32 im.bytes (at + i * 8)
  value ← read_u32 im.bytes (at + i * 8 + 4)
  found ← entry_matches im key name
  let rest = scan_names im name at (i + 1) left
  if found then ok value else rest

-- The loop that measures the wanted name.
pub check_name : ℕ → Bytes → Outcome (Unit {0})
check_name wanted [] = refuse (ltb 255 wanted) limit
check_name wanted (x ∷ xs) =
    let rest = check_name (wanted + 1) xs in
    if ltb 255 wanted then err limit else if leb 0x80 x then err unsupported else rest

pub entry_name : Image → ℕ → Bytes → Outcome ℕ
entry_name im table name = do
  refuse (length name == 0) precondition
  check_name 0 name
  (names, count, at) ← read_table im table
  scan_names im name at 0 names

pub resource_data : Image → ℕ → ℕ → Outcome Resource
resource_data im target language = do
  refuse (is_high target) unsupported
  p ← span im target 16
  rva ← read_u32 im.bytes p
  size ← read_u32 im.bytes (p + 4)
  cp ← read_u32 im.bytes (p + 8)
  reserved ← read_u32 im.bytes (p + 12)
  refuse (not (reserved == 0)) malformed
  offset ← file_offset im rva size
  ok (record { offset = offset; size = size; codepage = cp; language = language })

-- A level that has to lead to another table, which was not seen.
abbrev pub subtable : ℕ → Outcome ℕ
subtable target = if is_high target then ok (low_bits target) else err unsupported

-- The three levels of the loop.
pub find : Image → ℕ → ℕ → ℕ → Outcome Resource
find im type name lang = do
  refuse (is_high type || is_high name) precondition
  (target, key) ← entry im 0 type false
  names ← subtable target
  refuse (names == 0) malformed
  (target₁, key₁) ← entry im names name false
  langs ← subtable target₁
  refuse (langs == 0 || langs == names) malformed
  (target₂, key₂) ← entry im langs lang true
  resource_data im target₂ key₂

pub find_name : Image → ℕ → Bytes → ℕ → Outcome Resource
find_name im type name lang = do
  refuse (is_high type) precondition
  (target, key) ← entry im 0 type false
  names ← subtable target
  target₁ ← entry_name im names name
  langs ← subtable target₁
  (target₂, key₂) ← entry im langs lang true
  resource_data im target₂ key₂

-- The strings of a block, one after the other: the place and the units of the one that is wanted.
pub scan_strings : Image → Resource → ℕ → ℕ → ℕ → ℕ → ℕ × ℕ → Outcome (ℕ × ℕ)
scan_strings im r wanted i zero at selected = ok selected
scan_strings im r wanted i (suc left) at selected = do
  refuse (ltb r.size at || ltb (r.size - at) 2) truncated
  n ← read_u16 im.bytes (r.offset + at)
  refuse (ltb ((r.size - (at + 2)) / 2) n) truncated
  scan_strings im r wanted (i + 1) left (at + 2 + n * 2)
      (if i == wanted then (r.offset + (at + 2), n) else selected)

pub string : Image → ℕ → ℕ → Outcome (ℕ × ℕ)
string im id lang = do
  refuse (ltb 0xffff id) precondition
  r ← find im 6 (id / 16 + 1) lang
  scan_strings im r (id % 16) 0 16 0 (0, 0)
