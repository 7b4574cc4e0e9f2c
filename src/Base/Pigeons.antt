-- ===== src/Base/Pigeons.antt =====
-- The pigeonhole principle for maps between initial segments of the numbers.
use Prim.Native.Nat.{ℕ, zero, suc, ◌<◌}
use mathlib.Core.Path.{◌≡◌}
use native.Mathlib.Omega.{arith}
use zonal_zero_trust_auth.Base.Tests.{◌==◌, if◌then◌else◌}

-- No map takes n + 1 numbers to different numbers below n: the one that is sent to the last number is
-- sent to where the last one goes instead.
pub pigeonhole :
    (n : ℕ) (f : ℕ → ℕ)
    → ((i : ℕ) → i < suc n → f i < n)
    → ((i j : ℕ) → i < suc n → j < suc n → f i ≡ f j → i ≡ j)
    → ⊥
pigeonhole zero f small apart = absurd (omega (arith, small 0 (omega arith)))
pigeonhole (suc n) f small apart =
    pigeonhole n (λ i. if f i == n then f (suc n) else f i)
      (λ i h. ground (arith, small i, small (suc n), apart i (suc n)))
      (λ i j hi hj. ground (arith, apart i j, apart i (suc n), apart j (suc n)))
