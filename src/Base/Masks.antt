-- ===== src/Base/Masks.antt =====
-- The bit operations of the source as arithmetic: a mask is a remainder, and the `|` of numbers
-- without a common digit is a sum.
use Prim.Native.Nat.{
  ℕ, zero, suc, ◌+◌, ◌*◌, ◌^◌, ◌/◌, ◌%◌, ◌≤◌, ◌<◌, max, min, bit_or, bit_and, digits,
  bit_or-bitwise, bit_and-bitwise,
}
use mathlib.Core.Path.{◌≡◌, refl, sym, ap, ◌∙◌}
use native.Mathlib.Nat.{le_refl, pow-suc, pow-succ', div-div-eq-div-mul, mul_assoc}
use native.Mathlib.Omega.{arith}
use zonal_zero_trust_auth.Base.Bits.{bit_and_one}

-- The count of digits to go does not matter once it is large enough.
module _ (z : ℕ → ℕ) (f : ℕ → ℕ → ℕ) where
  digits_fuel : (n m a b : ℕ) → a ≤ n → a ≤ m → digits z f n a b ≡ digits z f m a b
  digits_fuel zero zero a b hn hm = refl
  digits_fuel zero (suc m) zero b hn hm = refl
  digits_fuel zero (suc m) (suc a) b hn hm = absurd (omega arith)
  digits_fuel (suc n) zero zero b hn hm = refl
  digits_fuel (suc n) zero (suc a) b hn hm = absurd (omega arith)
  digits_fuel (suc n) (suc m) zero b hn hm = refl
  digits_fuel (suc n) (suc m) (suc a) b hn hm =
      let ih = digits_fuel n m (suc a / 2) (b / 2) (omega arith) (omega arith) in
      ap (λ r. r * 2 + f (suc a % 2) (b % 2)) ih

-- One digit of each operation.
bit_or_step : (a b : ℕ) → bit_or a b ≡ bit_or (a / 2) (b / 2) * 2 + max (a % 2) (b % 2)
bit_or_step zero b = bit_or-bitwise 0 b ∙ omega (arith, bit_or-bitwise (0 / 2) (b / 2))
bit_or_step (suc a) b =
    bit_or-bitwise (suc a) b
    ∙ ap (λ r. r * 2 + max (suc a % 2) (b % 2))
        (digits_fuel (λ c. c) max a (suc a / 2) (suc a / 2) (b / 2) (omega arith) (omega arith)
          ∙ sym (bit_or-bitwise (suc a / 2) (b / 2)))

bit_and_step : (a b : ℕ) → bit_and a b ≡ bit_and (a / 2) (b / 2) * 2 + min (a % 2) (b % 2)
bit_and_step zero b = bit_and-bitwise 0 b ∙ omega (arith, bit_and-bitwise (0 / 2) (b / 2))
bit_and_step (suc a) b =
    bit_and-bitwise (suc a) b
    ∙ ap (λ r. r * 2 + min (suc a % 2) (b % 2))
        (digits_fuel (λ c. 0) min a (suc a / 2) (suc a / 2) (b / 2) (omega arith) (omega arith)
          ∙ sym (bit_and-bitwise (suc a / 2) (b / 2)))

or_digits_zero : (n a : ℕ) → a ≤ n → digits (λ b. b) max n a 0 ≡ a
or_digits_zero zero a h = omega arith
or_digits_zero (suc n) zero h = refl
or_digits_zero (suc n) (suc a) h = omega (arith, or_digits_zero n (suc a / 2) (omega arith))

bit_or_zero : (a : ℕ) → bit_or a 0 ≡ a
bit_or_zero a = bit_or-bitwise a 0 ∙ or_digits_zero a a (le_refl a)

double_pow : (a k : ℕ) → a * 2 ^ suc k ≡ a * 2 ^ k * 2
double_pow a k = ap (◌*◌ a) (pow-suc 2 k) ∙ sym (mul_assoc a (2 ^ k) 2)

-- `(a << k) | b`, where `b` has no more than `k` digits.
pub bit_or_add : (k a b : ℕ) → b < 2 ^ k → bit_or (a * 2 ^ k) b ≡ a * 2 ^ k + b
bit_or_add zero a b h =
    let z : b ≡ 0 = omega (arith, h) in
    let one : a * 2 ^ 0 ≡ a = omega arith in rw (z, one) (bit_or_zero a ∙ omega arith)
bit_or_add (suc k) a b h =
    let twice : a * 2 ^ suc k ≡ a * 2 ^ k * 2 = double_pow a k in
    let ih = bit_or_add k a (b / 2) (omega (arith, pow-suc 2 k)) in
    let high : a * 2 ^ k * 2 / 2 ≡ a * 2 ^ k = omega arith in
    rw twice (bit_or_step (a * 2 ^ k * 2) b ∙ rw (high, ih) (omega arith))

-- `a & (m << k)` is `((a >> k) & m) << k`.
pub bit_and_shift : (k a m : ℕ) → bit_and a (m * 2 ^ k) ≡ bit_and (a / 2 ^ k) m * 2 ^ k
bit_and_shift zero a m =
    let one : m * 2 ^ 0 ≡ m = omega arith in
    let same : a / 2 ^ 0 ≡ a = omega arith in rw (one, same) (omega arith)
bit_and_shift (suc k) a m =
    let twice : m * 2 ^ suc k ≡ m * 2 ^ k * 2 = double_pow m k in
    let ih = bit_and_shift k (a / 2) m in
    let half : m * 2 ^ k * 2 / 2 ≡ m * 2 ^ k = omega arith in
    let down : a / 2 / 2 ^ k ≡ a / 2 ^ suc k =
      div-div-eq-div-mul a 2 (2 ^ k) ∙ ap (λ d. a / d) (sym (pow-succ' 2 k)) in
    rw twice (
      bit_and_step a (m * 2 ^ k * 2)
      ∙ rw (half, ih, down, double_pow (bit_and (a / 2 ^ suc k) m) k) (omega arith))

-- One more digit of a mask of ones.
wider : (a m d : ℕ) → bit_and (a / 2) m ≡ a / 2 % d → bit_and a (m * 2 + 1) ≡ a / 2 % d * 2 + a % 2
wider a m d h =
    let half : (m * 2 + 1) / 2 ≡ m = omega arith in
    bit_and_step a (m * 2 + 1) ∙ rw (half, h) (omega arith)

ones_two : (a : ℕ) → bit_and a 3 ≡ a % 4
ones_two a = omega (arith, wider a 1 2 (bit_and_one (a / 2)))

ones_three : (a : ℕ) → bit_and a 7 ≡ a % 8
ones_three a = omega (arith, wider a 3 4 (ones_two (a / 2)))

ones_four : (a : ℕ) → bit_and a 15 ≡ a % 16
ones_four a = omega (arith, wider a 7 8 (ones_three (a / 2)))

ones_five : (a : ℕ) → bit_and a 31 ≡ a % 32
ones_five a = omega (arith, wider a 15 16 (ones_four (a / 2)))

ones_six : (a : ℕ) → bit_and a 63 ≡ a % 64
ones_six a = omega (arith, wider a 31 32 (ones_five (a / 2)))

ones_seven : (a : ℕ) → bit_and a 127 ≡ a % 128
ones_seven a = omega (arith, wider a 63 64 (ones_six (a / 2)))

-- `a & 0xff` is the lowest byte.
pub bit_and_byte : (a : ℕ) → bit_and a 0xff ≡ a % 256
bit_and_byte a = omega (arith, wider a 127 128 (ones_seven (a / 2)))
