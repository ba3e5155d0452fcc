-- ===== src/Common/Bits.antt =====
-- `&` with a mask of low or of high bits, and the test for a power of two, as arithmetic.
use Prim.Native.Nat.{
  ℕ, zero, suc, ◌+◌, ◌-◌, ◌*◌, ◌/◌, ◌%◌, ◌^◌, ◌≤◌, ◌<◌, min, bit_and, digits, bit_and-bitwise,
}
use mathlib.Core.Path.{◌≡◌, refl, ap, sym, ◌∙◌}
use mathlib.Core.Logic.{◌≢◌}
use native.Mathlib.Omega.{arith}
use native.Mathlib.Nat.{
  pow-suc, one-le-pow, pow-le-pow_right, mod-lt, mod-le, div-add-mod, add-mul-mod_self_right,
  mod-eq_of_lt, mul-mod_left,
}
use native.Mathlib.Decide.{ℕ_discrete, dec_lt}

-- What the native operation stands for, with a bound on the number of digits.
abbrev conjunction : ℕ → ℕ → ℕ → ℕ
conjunction bound x y = digits (λ _. 0) min bound x y

conjunction_empty : (bound y : ℕ) → conjunction bound 0 y ≡ 0
conjunction_empty zero y = refl
conjunction_empty (suc bound) y = refl

-- Two bounds that hold the digits agree.
conjunction_bound :
    (x y big small : ℕ) → x ≤ small → x ≤ big → conjunction small x y ≡ conjunction big x y
conjunction_bound zero y big small h k = conjunction_empty small y ∙ sym (conjunction_empty big y)
conjunction_bound (suc x) y zero small h k = omega arith
conjunction_bound (suc x) y big zero h k = omega arith
conjunction_bound (suc x) y (suc big) (suc small) h k =
    omega (arith, conjunction_bound (suc x / 2) (y / 2) big small)

module _ (y : ℕ) where
  bit_and-conjunction : (x bound : ℕ) → x ≤ bound → conjunction bound x y ≡ bit_and x y
  bit_and-conjunction x bound h =
      conjunction_bound x y x bound h (omega arith) ∙ sym (bit_and-bitwise x y)

-- The lowest digit, and the rest.
pub bit_and_step : (x y : ℕ) → bit_and x y ≡ min (x % 2) (y % 2) + bit_and (x / 2) (y / 2) * 2
bit_and_step zero y = omega (arith, bit_and-conjunction y 0 0, bit_and-conjunction (y / 2) 0 0)
bit_and_step (suc x) y =
    let whole = bit_and-conjunction y (suc x) (suc x) (omega arith) in
    let half = bit_and-conjunction (y / 2) (suc x / 2) x (omega arith) in
    omega (arith, sym whole, half)

-- A fact that holds at 0 and follows for a number from its half holds everywhere.
halving :
    (P : ℕ → Type 0) → P 0 → ((x : ℕ) → P (suc x / 2) → P (suc x)) → (bound x : ℕ) → x ≤ bound → P x
halving P base step bound zero h = base
halving P base step zero (suc x) h = absurd (omega arith)
halving P base step (suc bound) (suc x) h =
    step x (halving P base step bound (suc x / 2) (omega arith))

pub bit_and_self : (x : ℕ) → bit_and x x ≡ x
bit_and_self x =
    halving (λ t. bit_and t t ≡ t) (omega (arith, bit_and-conjunction 0 0 0))
      (λ t h. omega (arith, h, bit_and_step (suc t) (suc t))) x x (omega arith)

pub bit_and-zero : (x : ℕ) → bit_and x 0 ≡ 0
bit_and-zero x =
    halving (λ t. bit_and t 0 ≡ 0) (omega (arith, bit_and-conjunction 0 0 0))
      (λ t h. omega (arith, h, bit_and_step (suc t) 0)) x x (omega arith)

-- The remainder by an even number, from that of the half.
mod-double : (p x : ℕ) → 0 < p → x % (p * 2) ≡ x / 2 % p * 2 + x % 2
mod-double p x h =
    let r : ℕ = x / 2 % p * 2 + x % 2 in
    let small : r < p * 2 = omega (arith, mod-lt (x / 2) h) in
    let split : x ≡ r + x / 2 / p * (p * 2) = omega (arith, div-add-mod (x / 2) p) in
    ap (λ (t : ℕ). t % (p * 2)) split
    ∙ add-mul-mod_self_right r (x / 2 / p) (p * 2)
    ∙ mod-eq_of_lt small

-- x & (2^k - 1)
pub bit_and_low : (k x : ℕ) → bit_and x (2 ^ k - 1) ≡ x % 2 ^ k
bit_and_low zero x = omega (arith, bit_and-zero x)
bit_and_low (suc k) x =
    let half : (2 ^ suc k - 1) / 2 ≡ 2 ^ k - 1 = omega (arith, pow-suc 2 k, one-le-pow k 2) in
    let odd : (2 ^ suc k - 1) % 2 ≡ 1 = omega (arith, pow-suc 2 k, one-le-pow k 2) in
    rw (bit_and_step x (2 ^ suc k - 1), half, odd, bit_and_low k (x / 2), pow-suc 2 k)
      (omega (arith, mod-double (2 ^ k) x (one-le-pow k 2 (omega arith))))

-- x & ~(2^k - 1), over words of w bits
pub bit_and_high : (k w x : ℕ) → k ≤ w → x < 2 ^ w → bit_and x (2 ^ w - 2 ^ k) ≡ x - x % 2 ^ k
bit_and_high zero w x p q = omega (arith, bit_and_low w x, mod-eq_of_lt q)
bit_and_high (suc k) zero x p q = absurd (omega arith)
bit_and_high (suc k) (suc w) x p q =
    let order : 2 ^ k ≤ 2 ^ w = pow-le-pow_right (omega arith) (omega arith) in
    let half : (2 ^ suc w - 2 ^ suc k) / 2 ≡ 2 ^ w - 2 ^ k =
      omega (arith, pow-suc 2 k, pow-suc 2 w) in
    let even : (2 ^ suc w - 2 ^ suc k) % 2 ≡ 0 = omega (arith, pow-suc 2 k, pow-suc 2 w) in
    let fits : x / 2 < 2 ^ w = omega (arith, pow-suc 2 w) in
    rw (bit_and_step x (2 ^ suc w - 2 ^ suc k), half, even, pow-suc 2 k)
      (omega (
        arith,
        bit_and_high k w (x / 2) (omega arith) fits,
        mod-double (2 ^ k) x (one-le-pow k 2 (omega arith)),
        mod-le (x / 2) (2 ^ k),
      ))

pow_two_below : (n a : ℕ) → a ≤ n → a ≢ 0 → bit_and a (a - 1) ≡ 0 → (k : ℕ) × (a ≡ 2 ^ k)
pow_two_below zero a b h e = absurd (omega arith)
pow_two_below (suc n) a b h e = elim (ℕ_discrete (a % 2) 1) [
  | yes odd ↦ (
    0,
    omega (
      arith,
      bit_and_step a (a - 1),
      bit_and_self (a / 2),
      ap (bit_and (a / 2)) (let half : (a - 1) / 2 ≡ a / 2 = omega arith in half),
    ),
  )
  | no even ↦
      let half : (a - 1) / 2 ≡ a / 2 - 1 = omega arith in
      let (k, p) =
        pow_two_below n (a / 2) (omega arith) (omega arith)
          (omega (arith, bit_and_step a (a - 1), ap (bit_and (a / 2)) half)) in
      (suc k, omega (arith, p, pow-suc 2 k))
]

-- a & (a - 1) is zero at the powers of two alone.
pub pow_two_of_bit_and : (a : ℕ) → a ≢ 0 → bit_and a (a - 1) ≡ 0 → (k : ℕ) × (a ≡ 2 ^ k)
pow_two_of_bit_and a h e = pow_two_below a a (omega arith) h e

-- Rounding down to a multiple of a power of two.
pub sub-mod-mod : (x a : ℕ) → 0 < a → (x - x % a) % a ≡ 0
sub-mod-mod x a h =
    let whole : x - x % a ≡ x / a * a = omega (arith, div-add-mod x a) in
    rw whole (mul-mod_left (x / a) a)

pub pow_below : (k w : ℕ) → 2 ^ k ≤ 2 ^ w → k ≤ w
pow_below k w h = elim (dec_lt w k) [
  | yes over ↦ absurd (
      omega (
        arith,
        pow-suc 2 w,
        one-le-pow w 2,
        pow-le-pow_right {n = 2} (omega arith) {i = suc w} {j = k} over,
      ))
  | no fits ↦ omega arith
]
