-- ===== src/ConstantTime.antt =====
-- The constant-time comparison that the sources repeat: an accumulator takes the bitwise or of all
-- byte differences, and is tested against 0 once at the end.
use Prim.Native.Nat.{bit_or, bit_xor}
use zonal_zero_trust_auth.Base.{
  ℕ, zero, suc, ◌%◌, ◌<◌, ◌≡◌, ◌↔◌, refl, sym, ap, ◌∙◌, [], ◌∷◌, Bool, true, ◌==◌, ==_iff, All,
  length, arith,
}
use zonal_zero_trust_auth.Base.Bits.{
  bit_xor-eq_zero, bit_xor_self, bit_or-eq_zero, bit_or-lt, bit_xor-lt,
}
use zonal_zero_trust_auth.Platform.{Bytes, IsArray, zeros}
use mathlib.Core.Path.{ap₂}
use native.Mathlib.Nat.{mod-eq_of_lt}

-- `for (j = 0; j < N; ++j) diff = (uint8_t)(diff | (a[j] ^ b[j]));`
unfoldable pub diff_bytes : ℕ → Bytes → Bytes → ℕ
diff_bytes diff [] ys = diff
diff_bytes diff (x ∷ xs) [] = diff
diff_bytes diff (x ∷ xs) (y ∷ ys) = diff_bytes (bit_or diff (bit_xor x y) % 256) xs ys

unfoldable pub same_bytes : Bytes → Bytes → Bool
unfolding diff_bytes
same_bytes xs ys = diff_bytes 0 xs ys == 0

-- `for (i = 0; i < N; ++i) check = (uint8_t)(check | a[i]);`
unfoldable pub or_bytes : ℕ → Bytes → ℕ
or_bytes check [] = check
or_bytes check (x ∷ xs) = or_bytes (bit_or check x % 256) xs

unfoldable pub is_zero : Bytes → Bool
unfolding or_bytes
is_zero xs = or_bytes 0 xs == 0

or_byte : (a b : ℕ) → a < 256 → b < 256 → bit_or a b % 256 ≡ bit_or a b
or_byte a b ha hb = mod-eq_of_lt (bit_or-lt 8 a b ha hb)

xor_byte : (a b : ℕ) → a < 256 → b < 256 → bit_xor a b < 256
xor_byte a b ha hb = bit_xor-lt 8 a b ha hb

diff_bytes-eq_zero :
    (diff : ℕ) (xs ys : Bytes)
    → diff < 256
    → length xs ≡ length ys
    → All (λ b. b < 256) xs
    → All (λ b. b < 256) ys
    → diff_bytes diff xs ys ≡ 0
    → (diff ≡ 0) × (xs ≡ ys)
unfolding diff_bytes
diff_bytes-eq_zero diff [] [] hd hl hx hy e = (e, refl)
diff_bytes-eq_zero diff [] (y ∷ ys) hd hl hx hy e = absurd (omega arith)
diff_bytes-eq_zero diff (x ∷ xs) [] hd hl hx hy e = absurd (omega arith)
diff_bytes-eq_zero diff (x ∷ xs) (y ∷ ys) hd hl hx hy e =
    let small = xor_byte x y hx.0 hy.0 in
    let cast = or_byte diff (bit_xor x y) hd small in
    let (z, tails) =
      diff_bytes-eq_zero (bit_or diff (bit_xor x y) % 256) xs ys (omega arith) (omega arith) hx.1
        hy.1 e in
    let (d, same) = bit_or-eq_zero diff (bit_xor x y) (sym cast ∙ z) in
    (d, ap₂ ◌∷◌ (bit_xor-eq_zero x y same) tails)

diff_bytes_self : (xs : Bytes) → diff_bytes 0 xs xs ≡ 0
unfolding diff_bytes
diff_bytes_self [] = refl
diff_bytes_self (x ∷ xs) = rw bit_xor_self (diff_bytes_self xs)

-- On two arrays of one size the accumulator test decides equality.
pub same_bytes_iff :
    (n : ℕ) (xs ys : Bytes) → IsArray n xs → IsArray n ys → (same_bytes xs ys ≡ true) ↔ (xs ≡ ys)
unfolding same_bytes
same_bytes_iff n xs ys hx hy = (
  (λ e.
      (diff_bytes-eq_zero 0 xs ys (omega arith) (hx.0 ∙ sym hy.0) hx.1 hy.1
        ((==_iff (diff_bytes 0 xs ys) 0).0 e)).1),
  (λ e. rw (← e, diff_bytes_self xs)),
)

pub same_bytes_self : (xs : Bytes) → same_bytes xs xs ≡ true
unfolding same_bytes
same_bytes_self xs = rw (diff_bytes_self xs)

or_bytes-eq_zero :
    (check : ℕ) (xs : Bytes)
    → check < 256
    → All (λ b. b < 256) xs
    → or_bytes check xs ≡ 0
    → (check ≡ 0) × (xs ≡ zeros (length xs))
unfolding or_bytes
or_bytes-eq_zero check [] hc hx e = (e, refl)
or_bytes-eq_zero check (x ∷ xs) hc hx e =
    let cast = or_byte check x hc hx.0 in
    let (z, tail) = or_bytes-eq_zero (bit_or check x % 256) xs (omega arith) hx.1 e in
    let (c, head) = bit_or-eq_zero check x (sym cast ∙ z) in (c, ap₂ ◌∷◌ head tail)

or_bytes-zeros : (n : ℕ) → or_bytes 0 (zeros n) ≡ 0
unfolding or_bytes
or_bytes-zeros zero = refl
or_bytes-zeros (suc n) = or_bytes-zeros n

-- The check for the sentinel identifier decides whether every byte is 0.
pub is_zero_iff : (n : ℕ) (xs : Bytes) → IsArray n xs → (is_zero xs ≡ true) ↔ (xs ≡ zeros n)
unfolding is_zero
is_zero_iff n xs hx = (
  (λ e.
      (or_bytes-eq_zero 0 xs (omega arith) hx.1 ((==_iff (or_bytes 0 xs) 0).0 e)).1
      ∙ ap (λ k. zeros k) hx.0),
  (λ e. rw (e, or_bytes-zeros n)),
)
