-- ===== src/Base/Bits.antt =====
-- Laws of the native bit operations at variables. Each operation is a recursion over binary
-- digits; the laws here follow from one equation for the lowest digit.
use Prim.Native.Nat.{
  ℕ, zero, suc, ◌+◌, ◌-◌, ◌*◌, ◌/◌, ◌%◌, ◌^◌, ◌≤◌, ◌<◌, bit_and, bit_or, bit_xor, max, min, differ,
  digits, bitwise, bit_and-bitwise, bit_or-bitwise, bit_xor-bitwise,
}
use mathlib.Core.Path.{◌≡◌, refl, ap}
use native.Mathlib.Nat.{le_refl, pow-suc, one-le-pow}
use native.Mathlib.Omega.{arith}

-- The fuel of `digits` does not matter once it covers the first number.
module _ (ends : ℕ → ℕ) (op : ℕ → ℕ → ℕ) where
  digits_enough : (n m a b : ℕ) → a ≤ n → a ≤ m → digits ends op n a b ≡ digits ends op m a b
  digits_enough zero zero a b p q = refl
  digits_enough zero (suc m) zero b p q = refl
  digits_enough zero (suc m) (suc a) b p q = elim p [ ]
  digits_enough (suc n) zero zero b p q = refl
  digits_enough (suc n) zero (suc a) b p q = elim q [ ]
  digits_enough (suc n) (suc m) zero b p q = refl
  digits_enough (suc n) (suc m) (suc a) b p q =
      ap (λ (t : ℕ). t * 2 + op (suc a % 2) (b % 2))
        (digits_enough n m (suc a / 2) (b / 2) (omega arith) (omega arith))

  lowest_digit :
      (a b : ℕ)
      → bitwise ends op (suc a) b ≡ bitwise ends op (suc a / 2) (b / 2) * 2 + op (suc a % 2) (b % 2)
  lowest_digit a b =
      omega (arith, digits_enough a (suc a / 2) (suc a / 2) (b / 2) (omega arith) (le_refl _))

differ_digits : (x y : ℕ) → x < 2 → y < 2 → differ x y ≡ (x + y) % 2
differ_digits zero y p q = omega arith
differ_digits (suc zero) zero p q = refl
differ_digits (suc zero) (suc zero) p q = refl
differ_digits (suc zero) (suc (suc y)) p q = absurd (omega arith)
differ_digits (suc (suc x)) y p q = absurd (omega arith)

pub bit_xor_step : (a b : ℕ) → bit_xor a b ≡ bit_xor (a / 2) (b / 2) * 2 + (a + b) % 2
bit_xor_step zero b = omega (arith, bit_xor-bitwise zero b, bit_xor-bitwise zero (b / 2))
bit_xor_step (suc a) b = omega (
  arith,
  lowest_digit (λ y. y) differ a b,
  bit_xor-bitwise (suc a) b,
  bit_xor-bitwise (suc a / 2) (b / 2),
  differ_digits (suc a % 2) (b % 2) (omega arith) (omega arith),
)

pub bit_or_step : (a b : ℕ) → bit_or a b ≡ bit_or (a / 2) (b / 2) * 2 + max (a % 2) (b % 2)
bit_or_step zero b = omega (arith, bit_or-bitwise zero b, bit_or-bitwise zero (b / 2))
bit_or_step (suc a) b = omega (
  arith,
  lowest_digit (λ y. y) max a b,
  bit_or-bitwise (suc a) b,
  bit_or-bitwise (suc a / 2) (b / 2),
)

zero-bit_xor : (b : ℕ) → bit_xor 0 b ≡ b
zero-bit_xor b = bit_xor-bitwise 0 b

cancel_within : (n a k : ℕ) → a ≤ n → k ≤ n → bit_xor (bit_xor a k) k ≡ a
cancel_within n zero zero p q = refl
cancel_within zero zero (suc k) p q = elim q [ ]
cancel_within zero (suc a) k p q = elim p [ ]
cancel_within (suc n) a k p q = omega (
  arith,
  bit_xor_step a k,
  bit_xor_step (bit_xor a k) k,
  ap (λ (t : ℕ). bit_xor t (k / 2)) half,
  cancel_within n (a / 2) (k / 2) (omega arith) (omega arith),
)
  where
    half : bit_xor a k / 2 ≡ bit_xor (a / 2) (k / 2)
    half = omega (arith, bit_xor_step a k)

-- Applying a mask twice gives the value back.
pub bit_xor-cancel : (a k : ℕ) → bit_xor (bit_xor a k) k ≡ a
bit_xor-cancel a k = cancel_within (a + k) a k (omega arith) (omega arith)

mod-two-mul : (p x : ℕ) → 0 < p → x % (2 * p) ≡ x / 2 % p * 2 + x % 2
mod-two-mul p x h = grind arith

-- The low digits of an exclusive or depend on the low digits alone.
pub bit_xor-mod : (k a b : ℕ) → bit_xor a b % 2 ^ k ≡ bit_xor (a % 2 ^ k) (b % 2 ^ k)
bit_xor-mod zero a b = ground (arith, zero-bit_xor 0)
bit_xor-mod (suc k) a b = ground (
  arith,
  pow-suc 2 k,
  one-le-pow k 2,
  mod-two-mul (2 ^ k) a,
  mod-two-mul (2 ^ k) b,
  mod-two-mul (2 ^ k) (bit_xor a b),
  bit_xor_step a b,
  bit_xor_step (a % 2 ^ suc k) (b % 2 ^ suc k),
  bit_xor-mod k (a / 2) (b / 2),
)

bit_or-zero_within : (n a : ℕ) → a ≤ n → bit_or a 0 ≡ a
bit_or-zero_within n zero h = refl
bit_or-zero_within zero (suc a) h = elim h [ ]
bit_or-zero_within (suc n) (suc a) h =
    omega (arith, bit_or_step (suc a) 0, bit_or-zero_within n (suc a / 2) (omega arith))

-- An or of disjoint fields is their sum.
pub bit_or_fields : (k q r : ℕ) → r < 2 ^ k → bit_or (q * 2 ^ k) r ≡ q * 2 ^ k + r
bit_or_fields zero q r h = ground (arith, bit_or-zero_within q q)
bit_or_fields (suc k) q r h = ground (
  arith,
  pow-suc 2 k,
  ap (λ (t : ℕ). q * t) (pow-suc 2 k),
  bit_or_step (q * 2 ^ suc k) r,
  bit_or_fields k q (r / 2),
)

pub bit_and_step : (a b : ℕ) → bit_and a b ≡ bit_and (a / 2) (b / 2) * 2 + min (a % 2) (b % 2)
bit_and_step zero b = omega (arith, bit_and-bitwise zero b, bit_and-bitwise zero (b / 2))
bit_and_step (suc a) b = omega (
  arith,
  lowest_digit (λ y. 0) min a b,
  bit_and-bitwise (suc a) b,
  bit_and-bitwise (suc a / 2) (b / 2),
)

bit_and-zero_within : (n a : ℕ) → a ≤ n → bit_and a 0 ≡ 0
bit_and-zero_within n zero h = refl
bit_and-zero_within zero (suc a) h = elim h [ ]
bit_and-zero_within (suc n) (suc a) h =
    omega (arith, bit_and_step (suc a) 0, bit_and-zero_within n (suc a / 2) (omega arith))

-- A mask of low ones is a remainder.
pub bit_and_low : (k a : ℕ) → bit_and a (2 ^ k - 1) ≡ a % 2 ^ k
bit_and_low zero a = ground (arith, bit_and-zero_within a a)
bit_and_low (suc k) a = ground (
  arith,
  pow-suc 2 k,
  one-le-pow k 2,
  mod-two-mul (2 ^ k) a,
  bit_and_step a (2 ^ suc k - 1),
  bit_and_low k (a / 2),
)

pub low_byte-mod : (a : ℕ) → bit_and a 0xff ≡ a % 256
low_byte-mod a = bit_and_low 8 a
