-- ===== src/Pe/Bytes.antt =====
-- Byte spans and the little-endian readers read_u16, read_u32 and read_u64 of pe_image.c and
-- pe_import.c, and the copies by memcpy of pe_reloc.c, which read the same way on the targets.
use ps5_homebrew_lab.Common.{
  ℕ, ◌+◌, ◌-◌, ◌*◌, ◌%◌, ◌^◌, ◌≤◌, ◌<◌, ◌≡◌, Bool, true, ◌&&◌, List, length, get_or, arith, leb,
  le→leb, if◌then◌else◌, Outcome, ok, fault,
}

-- A span of uint8_t; a number in it stands for its residue.
abbrev pub Bytes : Type 0
Bytes = List ℕ

abbrev pub byte : Bytes → ℕ → ℕ
byte b o = get_or b o 0 % 256

-- The shifted bytes share no bit, so that `|` is a sum.
unfoldable pub u16 : Bytes → ℕ → ℕ
u16 b o = byte b o + byte b (o + 1) * 2 ^ 8

unfoldable pub u32 : Bytes → ℕ → ℕ
u32 b o = byte b o + byte b (o + 1) * 2 ^ 8 + byte b (o + 2) * 2 ^ 16 + byte b (o + 3) * 2 ^ 24

unfoldable pub u64 : Bytes → ℕ → ℕ
u64 b o = u32 b o + u32 b (o + 4) * 2 ^ 32

-- The readers at a place in a span; outside of it the access is a fault.
unfoldable pub read_u8 : Bytes → ℕ → Outcome ℕ
read_u8 b o = if leb (o + 1) (length b) then ok (byte b o) else fault

unfoldable pub read_u16 : Bytes → ℕ → Outcome ℕ
read_u16 b o = if leb (o + 2) (length b) then ok (u16 b o) else fault

unfoldable pub read_u32 : Bytes → ℕ → Outcome ℕ
read_u32 b o = if leb (o + 4) (length b) then ok (u32 b o) else fault

unfoldable pub read_u64 : Bytes → ℕ → Outcome ℕ
read_u64 b o = if leb (o + 8) (length b) then ok (u64 b o) else fault

unfoldable pub span_ok : ℕ → ℕ → ℕ → Bool
span_ok size offset bytes = leb bytes size && leb offset (size - bytes)

pub u16-lt : (b : Bytes) (o : ℕ) → u16 b o < 2 ^ 16
unfolding u16
u16-lt b o = omega arith

pub u32-lt : (b : Bytes) (o : ℕ) → u32 b o < 2 ^ 32
unfolding u32
u32-lt b o = omega arith

pub u64-lt : (b : Bytes) (o : ℕ) → u64 b o < 2 ^ 64
unfolding u64
u64-lt b o = omega (arith, u32-lt b o, u32-lt b (o + 4))

module _ (b : Bytes) (o : ℕ) where
  pub read_u8_ok : o + 1 ≤ length b → read_u8 b o ≡ ok (byte b o)
  unfolding read_u8
  read_u8_ok h = rw (le→leb (o + 1) (length b) h)

  pub read_u16_ok : o + 2 ≤ length b → read_u16 b o ≡ ok (u16 b o)
  unfolding read_u16
  read_u16_ok h = rw (le→leb (o + 2) (length b) h)

  pub read_u32_ok : o + 4 ≤ length b → read_u32 b o ≡ ok (u32 b o)
  unfolding read_u32
  read_u32_ok h = rw (le→leb (o + 4) (length b) h)

  pub read_u64_ok : o + 8 ≤ length b → read_u64 b o ≡ ok (u64 b o)
  unfolding read_u64
  read_u64_ok h = rw (le→leb (o + 8) (length b) h)

-- What span_ok promises, with no wrap-around.
pub span_ok_bounds :
    (size offset bytes : ℕ) → span_ok size offset bytes ≡ true → offset + bytes ≤ size
unfolding span_ok
span_ok_bounds size offset bytes h = ground arith

pub span_ok_complete :
    (size offset bytes : ℕ) → offset + bytes ≤ size → span_ok size offset bytes ≡ true
unfolding span_ok
span_ok_complete size offset bytes h = ground arith

-- What a reader returns is a word of its width.
pub read_u16-word : (b : Bytes) (o x : ℕ) → read_u16 b o ≡ ok x → x < 2 ^ 16
unfolding read_u16
read_u16-word b o x e = ground (arith, u16-lt b o)

pub read_u32-word : (b : Bytes) (o x : ℕ) → read_u32 b o ≡ ok x → x < 2 ^ 32
unfolding read_u32
read_u32-word b o x e = ground (arith, u32-lt b o)

pub read_u64-word : (b : Bytes) (o x : ℕ) → read_u64 b o ≡ ok x → x < 2 ^ 64
unfolding read_u64
read_u64-word b o x e = ground (arith, u64-lt b o)
