-- ===== src/Prelude/Bits.antt =====
-- Laws of `bit_xor` and of a one-bit mask at variables, from the digit recursion that the native
-- operations stand for.
use Prim.Native.Nat.{
  ℕ, zero, suc, ◌+◌, ◌-◌, ◌*◌, ◌/◌, ◌%◌, ◌^◌, ◌≤◌, ◌<◌, min, bit_and, bit_xor, digits, bitwise,
  differ, bit_and-bitwise, bit_xor-bitwise,
}
use mathlib.Core.Path.{◌≡◌, refl, ◌∙◌, ap}
use native.Mathlib.Nat.{le_refl, pow-suc, div-div-eq-div-mul}
use native.Mathlib.Omega.{arith}

-- The fuel of `digits` beyond the size of the first number is not used.
module _ (base : ℕ → ℕ) (digit : ℕ → ℕ → ℕ) where
  one_more :
      (fuel x y : ℕ) → x ≤ fuel → digits base digit (suc fuel) x y ≡ digits base digit fuel x y
  one_more zero zero y enough = refl
  one_more (suc less) zero y enough = refl
  one_more zero (suc x) y enough = absurd (omega arith)
  one_more (suc less) (suc x) y enough =
      ap (λ above. above * 2 + digit (suc x % 2) (y % 2))
        (one_more less (suc x / 2) (y / 2) (omega arith))

  spare_fuel :
      (spare fuel x y : ℕ)
      → x ≤ fuel
      → digits base digit (spare + fuel) x y ≡ digits base digit fuel x y
  spare_fuel zero fuel x y enough =
      let sum : 0 + fuel ≡ fuel = omega arith in ap (λ t. digits base digit t x y) sum
  spare_fuel (suc spare) fuel x y enough =
      let sum : suc spare + fuel ≡ suc (spare + fuel) = omega arith in
      ap (λ t. digits base digit t x y) sum
      ∙ one_more (spare + fuel) x y (omega arith)
      ∙ spare_fuel spare fuel x y enough

  lowest_digit :
      (x y : ℕ)
      → bitwise base digit (suc x) y
        ≡ bitwise base digit (suc x / 2) (y / 2) * 2 + digit (suc x % 2) (y % 2)
  lowest_digit x y =
      let half = suc x / 2 in
      let fuel : x ≡ (x - half) + half = omega arith in
      ap (λ above. above * 2 + digit (suc x % 2) (y % 2))
        (ap (λ t. digits base digit t half (y / 2)) fuel
          ∙ spare_fuel (x - half) half half (y / 2) (le_refl _))

differ_lem : (x y : ℕ) → x < 2 → y < 2 → differ x y ≡ (x + y) % 2
differ_lem zero y p q = omega arith
differ_lem (suc zero) zero p q = omega arith
differ_lem (suc zero) (suc zero) p q = omega arith
differ_lem (suc zero) (suc (suc y)) p q = absurd (omega arith)
differ_lem (suc (suc x)) y p q = absurd (omega arith)

bit_and_step : (x y : ℕ) → bit_and x y ≡ bit_and (x / 2) (y / 2) * 2 + min (x % 2) (y % 2)
bit_and_step zero y = simp bit_and-bitwise (omega arith)
bit_and_step (suc x) y = simp bit_and-bitwise (lowest_digit (λ rest. 0) min x y)

bit_xor_digits : (x y : ℕ) → bit_xor x y ≡ bit_xor (x / 2) (y / 2) * 2 + differ (x % 2) (y % 2)
bit_xor_digits zero y = simp bit_xor-bitwise (omega arith)
bit_xor_digits (suc x) y = simp bit_xor-bitwise (lowest_digit (λ rest. rest) differ x y)

-- The lowest binary digit of a symmetric difference, and the digits above it.
pub bit_xor_step : (a b : ℕ) → bit_xor a b ≡ bit_xor (a / 2) (b / 2) * 2 + (a % 2 + b % 2) % 2
bit_xor_step a b =
    omega (arith, bit_xor_digits a b, differ_lem (a % 2) (b % 2) (omega arith) (omega arith))

-- A symmetric difference of `k`-bit numbers has `k` bits.
pub bit_xor-lt : (k a b : ℕ) → a < 2 ^ k → b < 2 ^ k → bit_xor a b < 2 ^ k
bit_xor-lt zero zero zero p q = omega arith
bit_xor-lt zero zero (suc b) p q = absurd (omega arith)
bit_xor-lt zero (suc a) b p q = absurd (omega arith)
bit_xor-lt (suc k) a b p q = omega (
  arith,
  bit_xor_step a b,
  pow-suc 2 k,
  bit_xor-lt k (a / 2) (b / 2) (omega (arith, pow-suc 2 k)) (omega (arith, pow-suc 2 k)),
)

bit_xor-bit_xor_below : (k a b : ℕ) → a < 2 ^ k → b < 2 ^ k → bit_xor (bit_xor a b) b ≡ a
bit_xor-bit_xor_below zero zero zero p q = refl
bit_xor-bit_xor_below zero zero (suc b) p q = absurd (omega arith)
bit_xor-bit_xor_below zero (suc a) b p q = absurd (omega arith)
bit_xor-bit_xor_below (suc k) a b p q =
    let half : bit_xor a b / 2 ≡ bit_xor (a / 2) (b / 2) = omega (arith, bit_xor_step a b) in
    let below =
      bit_xor-bit_xor_below k (a / 2) (b / 2) (omega (arith, pow-suc 2 k))
        (omega (arith, pow-suc 2 k)) in
    let low : bit_xor a b % 2 ≡ (a % 2 + b % 2) % 2 = omega (arith, bit_xor_step a b) in
    bit_xor_step (bit_xor a b) b ∙ rw (half, below, low) (omega arith)

-- A second symmetric difference with the same number undoes the first.
pub bit_xor_cancel :
    (k a b c : ℕ) → a < 2 ^ k → b < 2 ^ k → c < 2 ^ k → bit_xor a c ≡ bit_xor b c → a ≡ b
bit_xor_cancel k a b c p q r e =
    cc (bit_xor-bit_xor_below k a c p r, bit_xor-bit_xor_below k b c q r, ap (λ t. bit_xor t c) e)

bit_xor_comm_below : (k a b : ℕ) → a < 2 ^ k → b < 2 ^ k → bit_xor a b ≡ bit_xor b a
bit_xor_comm_below zero zero zero p q = refl
bit_xor_comm_below zero zero (suc b) p q = absurd (omega arith)
bit_xor_comm_below zero (suc a) b p q = absurd (omega arith)
bit_xor_comm_below (suc k) a b p q = omega (
  arith,
  bit_xor_step a b,
  bit_xor_step b a,
  bit_xor_comm_below k (a / 2) (b / 2) (omega (arith, pow-suc 2 k)) (omega (arith, pow-suc 2 k)),
)

-- The same, with the common number on the left.
pub bit_xor_cancel_left :
    (k a b c : ℕ) → a < 2 ^ k → b < 2 ^ k → c < 2 ^ k → bit_xor c a ≡ bit_xor c b → a ≡ b
bit_xor_cancel_left k a b c p q r e =
    bit_xor_cancel k a b c p q r (bit_xor_comm_below k a c p r ∙ e ∙ bit_xor_comm_below k c b r q)

no_mask : (bound x : ℕ) → x < bound → bit_and x 0 ≡ 0
no_mask zero x below = absurd (omega arith)
no_mask (suc bound) zero below = refl
no_mask (suc bound) (suc x) below =
    let upper : bit_and (suc x / 2) 0 ≡ 0 = no_mask bound (suc x / 2) (omega arith) in
    bit_and_step (suc x) 0 ∙ omega (arith, upper)

-- A mask of one bit reads that binary digit.
pub bit_and-pow : (k a : ℕ) → bit_and a (2 ^ k) ≡ a / 2 ^ k % 2 * 2 ^ k
bit_and-pow zero a = omega (arith, bit_and_step a 1, no_mask (suc a) (a / 2) (omega arith))
bit_and-pow (suc k) a =
    let double : 2 ^ suc k ≡ 2 * 2 ^ k = omega (arith, pow-suc 2 k) in
    let above : a / 2 / 2 ^ k ≡ a / 2 ^ suc k =
      div-div-eq-div-mul a 2 (2 ^ k) ∙ ap (λ t. a / t) (omega (arith, double)) in
    let half : 2 ^ suc k / 2 ≡ 2 ^ k = omega (arith, double) in
    omega (
      arith,
      bit_and_step a (2 ^ suc k),
      ap (λ t. bit_and (a / 2) t) half,
      bit_and-pow k (a / 2),
      ap (λ (t : ℕ). t % 2 * 2 ^ k) above,
      ap (λ (t : ℕ). a / 2 ^ suc k % 2 * t) double,
      double,
    )
