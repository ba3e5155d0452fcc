-- ===== src/Pe/Reloc/Store.antt =====
-- Little-endian stores into the mapped bytes: what is read back, and what stays.
use ps5_homebrew_lab.Common.{
  ℕ, zero, suc, ◌+◌, ◌/◌, ◌%◌, ◌^◌, ◌≤◌, ◌<◌, ◌≡◌, ◌≢◌, ◌⊎◌, [], ◌∷◌, length, get_or, set,
  length-set, arith, ok, refl, sym, ◌∙◌, ap,
}
use native.Mathlib.Nat.{add-zero, div-div-eq-div-mul, pow-succ'}
use ps5_homebrew_lab.Pe.Bytes.{Bytes, byte, u16, u32, u64, read_u32, read_u64}
use ps5_homebrew_lab.Pe.Reloc.{store, write, patch_u32, patch_u64}

pub get_or-set :
    (m : Bytes) (i j v : ℕ) → i < length m → j ≢ i → get_or (set m i v) j 0 ≡ get_or m j 0
get_or-set [] i j v h d = refl
get_or-set (x ∷ m) zero zero v h d = absurd (d refl)
get_or-set (x ∷ m) zero (suc j) v h d = refl
get_or-set (x ∷ m) (suc i) zero v h d = refl
get_or-set (x ∷ m) (suc i) (suc j) v h d = get_or-set m i j v (omega arith) (omega arith)

pub get_or-set_self : (m : Bytes) (i v : ℕ) → i < length m → get_or (set m i v) i 0 ≡ v
get_or-set_self [] i v h = elim h [ ]
get_or-set_self (x ∷ m) zero v h = refl
get_or-set_self (x ∷ m) (suc i) v h = get_or-set_self m i v (omega arith)

pub length-store : (m : Bytes) (o n v : ℕ) → length (store m o n v) ≡ length m
unfolding store
length-store m o zero v = refl
length-store m o (suc n) v =
    length-store (set m o (v % 256)) (o + 1) n (v / 256) ∙ length-set m o (v % 256)

-- A store leaves the bytes before and behind its span.
pub byte-store :
    (m : Bytes) (o n v j : ℕ)
    → o + n ≤ length m
    → (j < o) ⊎ (o + n ≤ j)
    → byte (store m o n v) j ≡ byte m j
unfolding store
byte-store m o zero v j h away = refl
byte-store m o (suc n) v j h away =
    byte-store (set m o (v % 256)) (o + 1) n (v / 256) j (omega (arith, length-set m o (v % 256)))
      (omega arith)
    ∙ ap (λ (t : ℕ). t % 256) (get_or-set m o j (v % 256) (omega arith) (omega arith))

store-suc :
    (m : Bytes) (o n v : ℕ) → store m o (suc n) v ≡ store (set m o (v % 256)) (o + 1) n (v / 256)
unfolding store
store-suc m o n v = refl

byte-store_at :
    (m : Bytes) (o n v : ℕ) → o + suc n ≤ length m → byte (store m o (suc n) v) o ≡ v % 256
unfolding store
byte-store_at m o n v h =
    byte-store (set m o (v % 256)) (o + 1) n (v / 256) o (omega (arith, length-set m o (v % 256)))
      (omega arith)
    ∙ omega (arith, get_or-set_self m o (v % 256))

-- The k-th byte of a store is the k-th digit of the value.
byte-store_digit :
    (m : Bytes) (o n v k : ℕ)
    → o + n ≤ length m
    → k < n
    → byte (store m o n v) (o + k) ≡ v / 256 ^ k % 256
byte-store_digit m o zero v k h l = absurd (omega arith)
byte-store_digit m o (suc n) v zero h l = rw (add-zero o) (byte-store_at m o n v h ∙ omega arith)
byte-store_digit m o (suc n) v (suc k) h l =
    let index : o + suc k ≡ o + 1 + k = omega arith in
    let divided : v / 256 / 256 ^ k ≡ v / 256 ^ suc k =
      div-div-eq-div-mul v 256 (256 ^ k) ∙ ap (λ (t : ℕ). v / t) (sym (pow-succ' 256 k)) in
    rw (index, store-suc m o n v, ← divided)
      (byte-store_digit (set m o (v % 256)) (o + 1) n (v / 256) k
        (omega (arith, length-set m o (v % 256))) (omega arith))

pub u16-store : (m : Bytes) (o v : ℕ) → o + 2 ≤ length m → u16 (store m o 2 v) o ≡ v % 2 ^ 16
unfolding u16
u16-store m o v h =
    omega (arith, byte-store_digit m o 2 v 1 h (omega arith), byte-store_at m o 1 v h)

pub u32-store : (m : Bytes) (o v : ℕ) → o + 4 ≤ length m → u32 (store m o 4 v) o ≡ v % 2 ^ 32
unfolding u32
u32-store m o v h = omega (
  arith,
  byte-store_at m o 3 v h,
  byte-store_digit m o 4 v 1 h (omega arith),
  byte-store_digit m o 4 v 2 h (omega arith),
  byte-store_digit m o 4 v 3 h (omega arith),
)

pub u64-store : (m : Bytes) (o v : ℕ) → o + 8 ≤ length m → u64 (store m o 8 v) o ≡ v % 2 ^ 64
unfolding u64 u32
u64-store m o v h =
    let i₅ : o + 4 + 1 ≡ o + 5 = omega arith in
    let i₆ : o + 4 + 2 ≡ o + 6 = omega arith in
    let i₇ : o + 4 + 3 ≡ o + 7 = omega arith in
    rw (i₅, i₆, i₇)
      (omega (
        arith,
        byte-store_at m o 7 v h,
        byte-store_digit m o 8 v 1 h (omega arith),
        byte-store_digit m o 8 v 2 h (omega arith),
        byte-store_digit m o 8 v 3 h (omega arith),
        byte-store_digit m o 8 v 4 h (omega arith),
        byte-store_digit m o 8 v 5 h (omega arith),
        byte-store_digit m o 8 v 6 h (omega arith),
        byte-store_digit m o 8 v 7 h (omega arith),
      ))

pub write_lem : (m : Bytes) (o n v : ℕ) → o + n ≤ length m → write m o n v ≡ ok (store m o n v)
unfolding write
write_lem m o n v h = ground arith

-- A patch of a word adds to it modulo its width, and leaves every other byte.
pub patch_u32_effect :
    (m : Bytes) (image_bytes target addend : ℕ) (m' : Bytes) (j : ℕ)
    → patch_u32 m image_bytes target addend ≡ ok m'
    → (j < target) ⊎ (target + 4 ≤ j)
    → (target + 4 ≤ image_bytes)
      × (length m' ≡ length m)
      × (u32 m' target ≡ (u32 m target + addend) % 2 ^ 32)
      × (byte m' j ≡ byte m j)
unfolding patch_u32 write read_u32
patch_u32_effect m image_bytes target addend m' j e away =
    let v = (u32 m target + addend) % 2 ^ 32 in
    ground (arith, length-store m target 4 v, u32-store m target v, byte-store m target 4 v j)

pub patch_u64_effect :
    (m : Bytes) (image_bytes target addend : ℕ) (m' : Bytes) (j : ℕ)
    → patch_u64 m image_bytes target addend ≡ ok m'
    → (j < target) ⊎ (target + 8 ≤ j)
    → (target + 8 ≤ image_bytes)
      × (length m' ≡ length m)
      × (u64 m' target ≡ (u64 m target + addend) % 2 ^ 64)
      × (byte m' j ≡ byte m j)
unfolding patch_u64 write read_u64
patch_u64_effect m image_bytes target addend m' j e away =
    let v = (u64 m target + addend) % 2 ^ 64 in
    ground (arith, length-store m target 8 v, u64-store m target v, byte-store m target 8 v j)
