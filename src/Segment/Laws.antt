-- ===== src/Segment/Laws.antt =====
-- Descriptors decode to what was encoded, and encode to what was decoded.
use ps5_homebrew_lab.Common.{ℕ, ◌+◌, ◌*◌, ◌/◌, ◌%◌, ◌^◌, ◌<◌, ◌≡◌, ◌||◌, arith, refl, false, ltb}
use ps5_homebrew_lab.Segment.{Fields, bit, encode, decode, ldt_selector}

-- What a descriptor has room for: a page limit of 20 bits, and words for the rest.
pub record IsEncodable (f : Fields) : Type 0 where
  pub base_word : f.base < 2 ^ 32
  pub limit_fits : f.limit < 2 ^ 20
  pub type_fits : f.type < 2 ^ 5
  pub dpl_fits : f.dpl < 2 ^ 2

bit_below : (x : ℕ) → bit x < 2
bit_below x = ground arith

-- The word of ten pieces, the lowest first.
abbrev word : ℕ → ℕ → ℕ → ℕ → ℕ → ℕ → ℕ → ℕ → ℕ → ℕ → ℕ
word l b t d p h lm d32 g hb =
    l
    + b * 2 ^ 16
    + t * 2 ^ 40
    + d * 2 ^ 45
    + p * 2 ^ 47
    + h * 2 ^ 48
    + lm * 2 ^ 53
    + d32 * 2 ^ 54
    + g * 2 ^ 55
    + hb * 2 ^ 56

module _ (l b t d p h lm d32 g hb : ℕ) (l_fits : l < 2 ^ 16) (b_fits : b < 2 ^ 24)
    (t_fits : t < 2 ^ 5) (d_fits : d < 2 ^ 2) (p_fits : p < 2) (h_fits : h < 2 ^ 4)
    (lm_fits : lm < 2) (d32_fits : d32 < 2) (g_fits : g < 2) (hb_fits : hb < 2 ^ 8) where
  word_low : word l b t d p h lm d32 g hb % 2 ^ 40 ≡ l + b * 2 ^ 16
  word_low = omega arith

  word_high :
      word l b t d p h lm d32 g hb / 2 ^ 40
      ≡ t
        + d * 2 ^ 5
        + p * 2 ^ 7
        + h * 2 ^ 8
        + lm * 2 ^ 13
        + d32 * 2 ^ 14
        + g * 2 ^ 15
        + hb * 2 ^ 16
  word_high = omega arith

  abbrev whole : ℕ
  whole = word l b t d p h lm d32 g hb

  word_pieces :
      (whole % 2 ^ 16 ≡ l)
      × (whole / 2 ^ 16 % 2 ^ 24 ≡ b)
      × (whole / 2 ^ 40 % 2 ^ 5 ≡ t)
      × (whole / 2 ^ 45 % 2 ^ 2 ≡ d)
      × (whole / 2 ^ 47 % 2 ≡ p)
      × (whole / 2 ^ 48 % 2 ^ 4 ≡ h)
      × (whole / 2 ^ 53 % 2 ≡ lm)
      × (whole / 2 ^ 54 % 2 ≡ d32)
      × (whole / 2 ^ 55 % 2 ≡ g)
      × (whole / 2 ^ 56 % 2 ^ 8 ≡ hb)
  word_pieces = omega arith

-- The fields that fit a descriptor come back from it, each flag as 0 or 1.
pub decode-encode :
    (f : Fields)
    → IsEncodable f
    → decode (encode f) ≡ record f {
      present = bit f.present;
      long_mode = bit f.long_mode;
      default32 = bit f.default32;
      page_granular = bit f.page_granular;
    }
unfolding decode encode
decode-encode f h =
    let pieces =
      word_pieces (f.limit % 2 ^ 16) (f.base % 2 ^ 24) (f.type % 2 ^ 5) (f.dpl % 2 ^ 2)
        (bit f.present) (f.limit / 2 ^ 16 % 2 ^ 4) (bit f.long_mode) (bit f.default32)
        (bit f.page_granular) (f.base / 2 ^ 24 % 2 ^ 8) (omega arith) (omega arith) (omega arith)
        (omega arith) (bit_below f.present) (omega arith) (bit_below f.long_mode)
        (bit_below f.default32) (bit_below f.page_granular) (omega arith) in
    let room : (ltb 0xfffff f.limit || ltb 31 f.type || ltb 3 f.dpl) ≡ false = ground (arith, h) in
    let base : f.base % 2 ^ 24 + f.base / 2 ^ 24 % 2 ^ 8 * 2 ^ 24 ≡ f.base =
      omega (arith, h.base_word) in
    let limit : f.limit % 2 ^ 16 + f.limit / 2 ^ 16 % 2 ^ 4 * 2 ^ 16 ≡ f.limit =
      omega (arith, h.limit_fits) in
    let type : f.type % 2 ^ 5 ≡ f.type = omega (arith, h.type_fits) in
    let dpl : f.dpl % 2 ^ 2 ≡ f.dpl = omega (arith, h.dpl_fits) in
    rw
      (
        room, pieces.0, pieces.1, pieces.2, pieces.3, pieces.4, pieces.5, pieces.6, pieces.7,
        pieces.8, pieces.9, base, limit, type, dpl,
      )
      refl

bit-mod : (x : ℕ) → bit (x % 2) ≡ x % 2
bit-mod x = ground arith

-- The pieces of a word whose bit 52 is clear make it up.
word_of_pieces :
    (w : ℕ)
    → w < 2 ^ 64
    → w / 2 ^ 52 % 2 ≡ 0
    → word
        (w % 2 ^ 16)
        (w / 2 ^ 16 % 2 ^ 24)
        (w / 2 ^ 40 % 2 ^ 5)
        (w / 2 ^ 45 % 2 ^ 2)
        (w / 2 ^ 47 % 2)
        (w / 2 ^ 48 % 2 ^ 4)
        (w / 2 ^ 53 % 2)
        (w / 2 ^ 54 % 2)
        (w / 2 ^ 55 % 2)
        (w / 2 ^ 56 % 2 ^ 8)
      ≡ w
word_of_pieces w h k = omega arith

decode-IsEncodable : (w : ℕ) → IsEncodable (decode w)
unfolding decode
decode-IsEncodable w = omega arith

-- A 64-bit word with bit 52 clear, which has no field, comes back from its fields, which fit a descriptor.
pub encode-decode :
    (w : ℕ) → w < 2 ^ 64 → w / 2 ^ 52 % 2 ≡ 0 → (encode (decode w) ≡ w) × IsEncodable (decode w)
unfolding decode encode
encode-decode w h k =
    let f = decode w in
    let e = decode-IsEncodable w in
    let room : (ltb 0xfffff f.limit || ltb 31 f.type || ltb 3 f.dpl) ≡ false = ground (arith, e) in
    let low : f.limit % 2 ^ 16 ≡ w % 2 ^ 16 = omega arith in
    let high : f.limit / 2 ^ 16 % 2 ^ 4 ≡ w / 2 ^ 48 % 2 ^ 4 = omega arith in
    let base : f.base % 2 ^ 24 ≡ w / 2 ^ 16 % 2 ^ 24 = omega arith in
    let top : f.base / 2 ^ 24 % 2 ^ 8 ≡ w / 2 ^ 56 % 2 ^ 8 = omega arith in
    let type : f.type % 2 ^ 5 ≡ w / 2 ^ 40 % 2 ^ 5 = omega arith in
    let dpl : f.dpl % 2 ^ 2 ≡ w / 2 ^ 45 % 2 ^ 2 = omega arith in
    (
      rw
          (
            room,
            low,
            high,
            base,
            top,
            type,
            dpl,
            bit-mod (w / 2 ^ 47),
            bit-mod (w / 2 ^ 53),
            bit-mod (w / 2 ^ 54),
            bit-mod (w / 2 ^ 55),
          )
          (word_of_pieces w h k),
      e,
    )

-- A selector of the 8192 entries of a table and of a ring below 4 gives back both, and names the local
-- table.
pub ldt_selector_lem :
    (index rpl : ℕ)
    → index < 2 ^ 13
    → rpl < 4
    → (ldt_selector index rpl / 8 ≡ index)
      × (ldt_selector index rpl % 4 ≡ rpl)
      × (ldt_selector index rpl / 4 % 2 ≡ 1)
      × (ldt_selector index rpl < 2 ^ 16)
unfolding ldt_selector
ldt_selector_lem index rpl h k = omega arith
