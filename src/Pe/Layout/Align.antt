-- ===== src/Pe/Layout/Align.antt =====
-- align_up_u32 of pe_layout.c rounds up to the next multiple, or refuses.
use ps5_homebrew_lab.Common.{ℕ, ◌+◌, ◌-◌, ◌%◌, ◌^◌, ◌≤◌, ◌<◌, ◌≡◌, bit_and, arith, ok}
use ps5_homebrew_lab.Common.Bits.{bit_and_high, bit_and_low, sub-mod-mod, pow_below}
use native.Mathlib.Nat.{mod-lt, one-le-pow}
use ps5_homebrew_lab.Pe.Image.Shape.{IsPowerOfTwo}
use ps5_homebrew_lab.Pe.Layout.{align_up_u32}

pub power_pos : (a : ℕ) → IsPowerOfTwo a → 0 < a
power_pos a (k, e) = omega (arith, e, one-le-pow k 2)

-- x & (a - 1), and x & ~(a - 1) on words.
pub low_part : (a x : ℕ) → IsPowerOfTwo a → bit_and x (a - 1) ≡ x % a
low_part a x (k, e) = rw e (bit_and_low k x)

pub high_part :
    (a x : ℕ)
    → IsPowerOfTwo a
    → a < 2 ^ 32
    → x < 2 ^ 32
    → bit_and x (2 ^ 32 - 1 - (a - 1)) ≡ x - x % a
high_part a x (k, e) small fits =
    let fact = bit_and_high k 32 x (pow_below k 32 (omega (arith, e))) fits in
    let same : 2 ^ 32 - 1 - (a - 1) ≡ 2 ^ 32 - 2 ^ k = omega (arith, e, one-le-pow k 2) in
    rw (same, e) fact

-- The result is the least multiple of the alignment that is not below the value, and is a word.
pub align_up_u32_lem :
    (value alignment out : ℕ)
    → IsPowerOfTwo alignment
    → alignment < 2 ^ 32
    → align_up_u32 value alignment ≡ ok out
    → (value ≤ out) × (out < value + alignment) × (out % alignment ≡ 0) × (out < 2 ^ 32)
unfolding align_up_u32
align_up_u32_lem value alignment out p small e =
    let positive = power_pos alignment p in
    let bound : value + (alignment - 1) < 2 ^ 32 = ground arith in
    let x = value + (alignment - 1) in
    let rounded : out ≡ x - x % alignment = ground (arith, high_part alignment x p small bound) in
    let near = mod-lt x positive in
    (
      omega (arith, rounded, near),
      omega (arith, rounded),
      rw rounded (sub-mod-mod x alignment positive),
      omega (arith, rounded),
    )
