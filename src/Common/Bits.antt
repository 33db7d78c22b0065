-- ===== src/Common/Bits.antt =====
-- Exclusive or on bytes: it is undone by itself. Flags are single bits.
use Prim.Native.Nat.{
  ℕ, zero, suc, ◌+◌, ◌*◌, ◌/◌, ◌%◌, ◌^◌, ◌≤◌, ◌<◌, bit_xor, bit_and, digits, differ,
  bit_xor-bitwise, bit_and-bitwise, min,
}
use native.Mathlib.Nat.{le_refl, pow-suc}
use mathlib.Core.Path.{◌≡◌, refl, ◌∙◌}
use native.Mathlib.Omega.{arith}

module _ (z : ℕ → ℕ) (f : ℕ → ℕ → ℕ) where
  digits_enough : (n m a b : ℕ) → a ≤ n → a ≤ m → digits z f n a b ≡ digits z f m a b
  digits_enough zero zero a b p q = refl
  digits_enough zero (suc m) zero b p q = refl
  digits_enough zero (suc m) (suc a) b p q = absurd (omega arith)
  digits_enough (suc n) zero zero b p q = refl
  digits_enough (suc n) zero (suc a) b p q = absurd (omega arith)
  digits_enough (suc n) (suc m) zero b p q = refl
  digits_enough (suc n) (suc m) (suc a) b p q =
      omega (arith, digits_enough n m (suc a / 2) (b / 2) (omega arith) (omega arith))

xor_digit :
    (a b : ℕ) → bit_xor (suc a) b ≡ bit_xor (suc a / 2) (b / 2) * 2 + differ (suc a % 2) (b % 2)
xor_digit a b = omega (
  arith,
  bit_xor-bitwise (suc a) b,
  bit_xor-bitwise (suc a / 2) (b / 2),
  digits_enough (λ y. y) differ a (suc a / 2) (suc a / 2) (b / 2) (omega arith) (le_refl _),
)

differ_bits : (a b : ℕ) → a < 2 → b < 2 → (differ a b < 2) × (differ (differ a b) b ≡ a)
differ_bits zero zero h k = (omega arith, refl)
differ_bits zero (suc zero) h k = (omega arith, refl)
differ_bits zero (suc (suc b)) h k = absurd (omega arith)
differ_bits (suc zero) zero h k = (omega arith, refl)
differ_bits (suc zero) (suc zero) h k = (omega arith, refl)
differ_bits (suc zero) (suc (suc b)) h k = absurd (omega arith)
differ_bits (suc (suc a)) b h k = absurd (omega arith)

zero-bit_xor : (b : ℕ) → bit_xor 0 b ≡ b
zero-bit_xor b = bit_xor-bitwise 0 b

-- The lowest digit, and the others.
bit_xor_step : (a b : ℕ) → bit_xor a b ≡ bit_xor (a / 2) (b / 2) * 2 + differ (a % 2) (b % 2)
bit_xor_step zero b = omega (arith, zero-bit_xor b, zero-bit_xor (b / 2))
bit_xor_step (suc a) b = xor_digit a b

bit_xor_digits :
    (w a k : ℕ) → a < 2 ^ w → k < 2 ^ w → (bit_xor a k < 2 ^ w) × (bit_xor (bit_xor a k) k ≡ a)
bit_xor_digits zero a k h g =
    let a0 : a ≡ 0 = omega arith in let k0 : k ≡ 0 = omega arith in rw (a0, k0) (omega arith, refl)
bit_xor_digits (suc w) a k h g =
    let (low, back) = differ_bits (a % 2) (k % 2) (omega arith) (omega arith) in
    let (fits, undone) =
      bit_xor_digits w (a / 2) (k / 2) (omega (arith, pow-suc 2 w)) (omega (arith, pow-suc 2 w)) in
    let step = bit_xor_step a k in
    let half : bit_xor a k / 2 ≡ bit_xor (a / 2) (k / 2) = omega arith in
    let odd : bit_xor a k % 2 ≡ differ (a % 2) (k % 2) = omega arith in
    (
      omega (arith, pow-suc 2 w),
      bit_xor_step (bit_xor a k) k ∙ rw (half, odd, undone, back) (omega arith),
    )

pub bit_xor_undo : (a k : ℕ) → a < 256 → k < 256 → bit_xor (bit_xor a k) k ≡ a
bit_xor_undo a k h g = (bit_xor_digits 8 a k h g).1

pub bit_xor-lt : (a k : ℕ) → a < 256 → k < 256 → bit_xor a k < 256
bit_xor-lt a k h g = (bit_xor_digits 8 a k h g).0

-- The lowest bit of a flag word.
and_digit : (a : ℕ) → bit_and (suc a) 1 ≡ bit_and (suc a / 2) 0 * 2 + suc a % 2
and_digit a = omega (
  arith,
  bit_and-bitwise (suc a) 1,
  bit_and-bitwise (suc a / 2) 0,
  digits_enough (λ y. 0) min a (suc a / 2) (suc a / 2) 0 (omega arith) (le_refl _),
)

bit_and-zero_fuel : (n a : ℕ) → a ≤ n → digits (λ y. 0) min n a 0 ≡ 0
bit_and-zero_fuel zero a h = refl
bit_and-zero_fuel (suc n) zero h = refl
bit_and-zero_fuel (suc n) (suc a) h = omega (arith, bit_and-zero_fuel n (suc a / 2) (omega arith))

pub bit_and-one : (a : ℕ) → bit_and a 1 ≡ a % 2
bit_and-one zero = omega (arith, bit_and-bitwise 0 1)
bit_and-one (suc a) = omega (
  arith,
  and_digit a,
  bit_and-bitwise (suc a / 2) 0,
  bit_and-zero_fuel (suc a / 2) (suc a / 2) (le_refl _),
)
