-- ===== src/Base/Bits.antt =====
-- The bit operations `|` and `^` of the source: what the accumulator of a constant-time comparison
-- needs of them. Each fact is an induction on the number of binary digits still to go.
use Prim.Native.Nat.{
  ℕ, zero, suc, ◌^◌, ◌/◌, ◌%◌, ◌≤◌, ◌<◌, max, min, bit_or, bit_xor, bit_and, digits, differ,
  bit_or-bitwise, bit_xor-bitwise, bit_and-bitwise,
}
use mathlib.Core.Path.{◌≡◌, refl, sym, subst, ◌∙◌}
use native.Mathlib.Nat.{le_refl, pow-suc}
use native.Mathlib.Omega.{arith}

-- The digits of the second number that are left once the first has run out.
abbrev rest : ℕ → ℕ
rest b = b

same_digit : (x y : ℕ) → differ x y ≡ 0 → x ≡ y
same_digit zero y e = sym e
same_digit (suc x) zero e = e
same_digit (suc x) (suc y) e = omega (arith, same_digit x y e)

differ_self : (x : ℕ) → differ x x ≡ 0
differ_self zero = refl
differ_self (suc x) = differ_self x

-- Two digits differ by a digit.
differ-lt : (x y : ℕ) → x < 2 → y < 2 → differ x y < 2
differ-lt zero y hx hy = hy
differ-lt (suc x) zero hx hy = hx
differ-lt (suc x) (suc y) hx hy = differ-lt x y (omega arith) (omega arith)

differ-digits-eq : (n a b : ℕ) → a ≤ n → digits rest differ n a b ≡ 0 → a ≡ b
differ-digits-eq zero a b h e = let z : b ≡ 0 = e in omega arith
differ-digits-eq (suc n) zero b h e = sym e
differ-digits-eq (suc n) (suc a) b h e =
    let low : suc a % 2 ≡ b % 2 = same_digit (suc a % 2) (b % 2) (omega arith) in
    let high : suc a / 2 ≡ b / 2 =
      differ-digits-eq n (suc a / 2) (b / 2) (omega arith) (omega arith) in
    omega arith

differ-digits_self : (n a : ℕ) → a ≤ n → digits rest differ n a a ≡ 0
differ-digits_self zero a h = omega arith
differ-digits_self (suc n) zero h = refl
differ-digits_self (suc n) (suc a) h =
    omega (arith, differ_self (suc a % 2), differ-digits_self n (suc a / 2) (omega arith))

max-digits-zero : (n a b : ℕ) → a ≤ n → digits rest max n a b ≡ 0 → (a ≡ 0) × (b ≡ 0)
max-digits-zero zero a b h e = (omega arith, e)
max-digits-zero (suc n) zero b h e = (refl, e)
max-digits-zero (suc n) (suc a) b h e =
    let high = max-digits-zero n (suc a / 2) (b / 2) (omega arith) (omega arith) in
    let low : suc a % 2 ≡ 0 = omega arith in absurd (omega (arith, high))

-- An operation on digits that yields digits does not make a number longer.
module _ (f : ℕ → ℕ → ℕ) (digit : (x y : ℕ) → x < 2 → y < 2 → f x y < 2) where
  digits-lt : (n k a b : ℕ) → a < 2 ^ k → b < 2 ^ k → digits rest f n a b < 2 ^ k
  digits-lt zero k a b ha hb = hb
  digits-lt (suc n) k zero b ha hb = hb
  digits-lt (suc n) zero (suc a) b ha hb = absurd (omega arith)
  digits-lt (suc n) (suc k) (suc a) b ha hb = omega (
    arith,
    pow-suc 2 k,
    digit (suc a % 2) (b % 2) (omega arith) (omega arith),
    digits-lt n k (suc a / 2) (b / 2) (omega (arith, pow-suc 2 k)) (omega (arith, pow-suc 2 k)),
  )

-- `a ^ b` is 0 only for equal numbers.
pub bit_xor-eq_zero : (a b : ℕ) → bit_xor a b ≡ 0 → a ≡ b
bit_xor-eq_zero a b e = differ-digits-eq a a b (le_refl a) (sym (bit_xor-bitwise a b) ∙ e)

pub bit_xor_self : (a : ℕ) → bit_xor a a ≡ 0
bit_xor_self a = bit_xor-bitwise a a ∙ differ-digits_self a a (le_refl a)

-- `a | b` is 0 only if both numbers are.
pub bit_or-eq_zero : (a b : ℕ) → bit_or a b ≡ 0 → (a ≡ 0) × (b ≡ 0)
bit_or-eq_zero a b e = max-digits-zero a a b (le_refl a) (sym (bit_or-bitwise a b) ∙ e)

pub bit_or-lt : (k a b : ℕ) → a < 2 ^ k → b < 2 ^ k → bit_or a b < 2 ^ k
bit_or-lt k a b ha hb =
    subst (λ r. r < 2 ^ k) (sym (bit_or-bitwise a b))
      (digits-lt max (λ x y hx hy. omega arith) a k a b ha hb)

pub bit_xor-lt : (k a b : ℕ) → a < 2 ^ k → b < 2 ^ k → bit_xor a b < 2 ^ k
bit_xor-lt k a b ha hb =
    subst (λ r. r < 2 ^ k) (sym (bit_xor-bitwise a b)) (digits-lt differ differ-lt a k a b ha hb)

min-digits_zero : (n a : ℕ) → digits (λ y. 0) min n a 0 ≡ 0
min-digits_zero zero a = refl
min-digits_zero (suc n) zero = refl
min-digits_zero (suc n) (suc a) = omega (arith, min-digits_zero n (suc a / 2))

min-digits_one : (n a : ℕ) → a ≤ n → digits (λ y. 0) min n a 1 ≡ a % 2
min-digits_one zero a h = omega arith
min-digits_one (suc n) zero h = refl
min-digits_one (suc n) (suc a) h = omega (arith, min-digits_zero n (suc a / 2))

-- `a & 1` is the lowest digit.
pub bit_and_one : (a : ℕ) → bit_and a 1 ≡ a % 2
bit_and_one a = bit_and-bitwise a 1 ∙ min-digits_one a a (le_refl a)
