-- ===== src/Common/Digits.antt =====
-- The digits of `|`, as arithmetic.
use Prim.Native.Nat.{ℕ, zero, suc, ◌+◌, ◌*◌, ◌/◌, ◌%◌, ◌≤◌, max, bit_or, digits, bit_or-bitwise}
use mathlib.Core.Path.{◌≡◌, refl, sym, ◌∙◌}
use mathlib.Core.Logic.{◌↔◌}
use native.Mathlib.Omega.{arith}

-- The digit of a number at a place, the lowest one at 0.
pub digit : ℕ → ℕ → ℕ
digit zero x = x % 2
digit (suc k) x = digit k (x / 2)

-- What the native operation stands for.
abbrev disjunction : ℕ → ℕ → ℕ → ℕ
disjunction bound x y = digits (λ b. b) max bound x y

disjunction_empty : (bound y : ℕ) → disjunction bound 0 y ≡ y
disjunction_empty zero y = refl
disjunction_empty (suc bound) y = refl

disjunction_bound :
    (x y big small : ℕ) → x ≤ small → x ≤ big → disjunction small x y ≡ disjunction big x y
disjunction_bound zero y big small h k = disjunction_empty small y ∙ sym (disjunction_empty big y)
disjunction_bound (suc x) y zero small h k = omega arith
disjunction_bound (suc x) y big zero h k = omega arith
disjunction_bound (suc x) y (suc big) (suc small) h k =
    omega (arith, disjunction_bound (suc x / 2) (y / 2) big small)

bit_or-disjunction : (y x bound : ℕ) → x ≤ bound → disjunction bound x y ≡ bit_or x y
bit_or-disjunction y x bound h =
    disjunction_bound x y x bound h (omega arith) ∙ sym (bit_or-bitwise x y)

zero-bit_or : (y : ℕ) → bit_or 0 y ≡ y
zero-bit_or y = sym (bit_or-disjunction y 0 0 (omega arith)) ∙ disjunction_empty 0 y

pub bit_or_step : (x y : ℕ) → bit_or x y ≡ max (x % 2) (y % 2) + bit_or (x / 2) (y / 2) * 2
bit_or_step zero y = omega (arith, zero-bit_or y, zero-bit_or (y / 2))
bit_or_step (suc x) y =
    let whole = bit_or-disjunction y (suc x) (suc x) (omega arith) in
    let half = bit_or-disjunction (y / 2) (suc x / 2) x (omega arith) in
    omega (arith, sym whole, half)

-- A digit of x | y is that of x or that of y.
pub digit-bit_or : (k x y : ℕ) → digit k (bit_or x y) ≡ max (digit k x) (digit k y)
unfolding digit
digit-bit_or zero x y = omega (arith, bit_or_step x y)
digit-bit_or (suc k) x y =
    let half : bit_or x y / 2 ≡ bit_or (x / 2) (y / 2) = omega (arith, bit_or_step x y) in
    rw half (digit-bit_or k (x / 2) (y / 2))

pub digit-le : (k x : ℕ) → digit k x ≤ 1
unfolding digit
digit-le zero x = omega arith
digit-le (suc k) x = digit-le k (x / 2)

pub digit-zero : (k : ℕ) → digit k 0 ≡ 0
unfolding digit
digit-zero zero = refl
digit-zero (suc k) = digit-zero k

pub digit-one : (k : ℕ) → (digit k 1 ≡ 1) ↔ (k ≡ 0)
unfolding digit
digit-one zero = (λ h. refl, λ h. refl)
digit-one (suc k) = (λ h. omega (arith, digit-zero k), λ h. omega arith)
