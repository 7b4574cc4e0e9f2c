-- ===== src/Crypto/Signature.antt =====
-- The mock signature check: which signatures are accepted.
use mathlib.Core.Path.{ap₂}
use Prim.Native.Nat.{bit_or, bit_xor}
use native.Mathlib.Nat.{mod-eq_of_lt}
use zonal_zero_trust_auth.Base.{
  All-take, ℕ, zero, suc, ◌%◌, ◌<◌, ◌≡◌, ◌↔◌, refl, sym, ◌∙◌, [], ◌∷◌, ◌++◌, true, arith,
  Bool-cases, inl, inr, ==_iff, length, All, take, drop, length-take, length-drop,
}
use zonal_zero_trust_auth.Base.Bits.{
  bit_xor-eq_zero, bit_xor_self, bit_or-eq_zero, bit_or-lt, bit_xor-lt,
}
use zonal_zero_trust_auth.Platform.{
  Bytes, CryptoSignature, EccPublicKey, Sha256Digest, CryptoStatus, IsArray, sha256_digest_len,
  ecc_public_key_len, ecc_signature_len,
}
use zonal_zero_trust_auth.ConstantTime.{same_bytes, same_bytes_iff}
use zonal_zero_trust_auth.Crypto.Constants.{mock_master_salt, mock_ecc_public_key}
use zonal_zero_trust_auth.Crypto.Sha256.{sha256_impl}
use zonal_zero_trust_auth.Crypto.Bounds.{sha256_impl-IsArray}
use zonal_zero_trust_auth.Crypto.Provider.{sig_diff, signature_matches, verify_ecc_signature}

-- A round of the accumulator that ends at 0 started at 0 and saw equal bytes.
or_xor-eq_zero :
    (diff x y : ℕ)
    → diff < 256
    → x < 256
    → y < 256
    → bit_or diff (bit_xor x y) % 256 ≡ 0
    → (diff ≡ 0) × (x ≡ y)
or_xor-eq_zero diff x y hd hx hy e =
    let cast = mod-eq_of_lt (bit_or-lt 8 diff (bit_xor x y) hd (bit_xor-lt 8 x y hx hy)) in
    let (d, same) = bit_or-eq_zero diff (bit_xor x y) (sym cast ∙ e) in
    (d, bit_xor-eq_zero x y same)

sig_diff-eq_zero :
    (n diff : ℕ) (xs rs ys ss : Bytes)
    → diff < 256
    → IsArray n xs
    → IsArray n rs
    → IsArray n ys
    → IsArray n ss
    → sig_diff diff xs rs ys ss ≡ 0
    → (diff ≡ 0) × (xs ≡ rs) × (ys ≡ ss)
unfolding sig_diff
sig_diff-eq_zero zero diff [] [] [] [] hd hx hr hy hs e = (e, refl, refl)
sig_diff-eq_zero zero diff [] [] [] (s ∷ ss) hd hx hr hy hs e = absurd (omega (arith, hs.0))
sig_diff-eq_zero zero diff [] [] (y ∷ ys) ss hd hx hr hy hs e = absurd (omega (arith, hy.0))
sig_diff-eq_zero zero diff [] (r ∷ rs) ys ss hd hx hr hy hs e = absurd (omega (arith, hr.0))
sig_diff-eq_zero zero diff (x ∷ xs) rs ys ss hd hx hr hy hs e = absurd (omega (arith, hx.0))
sig_diff-eq_zero (suc n) diff [] rs ys ss hd hx hr hy hs e = absurd (omega (arith, hx.0))
sig_diff-eq_zero (suc n) diff (x ∷ xs) [] ys ss hd hx hr hy hs e = absurd (omega (arith, hr.0))
sig_diff-eq_zero (suc n) diff (x ∷ xs) (r ∷ rs) [] ss hd hx hr hy hs e =
    absurd (omega (arith, hy.0))
sig_diff-eq_zero (suc n) diff (x ∷ xs) (r ∷ rs) (y ∷ ys) [] hd hx hr hy hs e =
    absurd (omega (arith, hs.0))
sig_diff-eq_zero (suc n) diff (x ∷ xs) (r ∷ rs) (y ∷ ys) (s ∷ ss) hd hx hr hy hs e =
    let first = bit_or diff (bit_xor x r) % 256 in
    let (d2, left, right) =
      sig_diff-eq_zero n (bit_or first (bit_xor y s) % 256) xs rs ys ss (omega arith)
        (omega (arith, hx.0), hx.1.1) (omega (arith, hr.0), hr.1.1) (omega (arith, hy.0), hy.1.1)
        (omega (arith, hs.0), hs.1.1) e in
    let (d1, low) = or_xor-eq_zero first y s (omega arith) hy.1.0 hs.1.0 d2 in
    let (d0, high) = or_xor-eq_zero diff x r hd hx.1.0 hr.1.0 d1 in
    (d0, ap₂ ◌∷◌ high left, ap₂ ◌∷◌ low right)

sig_diff_self : (xs ys : Bytes) → length xs ≡ length ys → sig_diff 0 xs xs ys ys ≡ 0
unfolding sig_diff
sig_diff_self [] ys h = refl
sig_diff_self (x ∷ xs) [] h = absurd (omega arith)
sig_diff_self (x ∷ xs) (y ∷ ys) h =
    rw (bit_xor_self x, bit_xor_self y) (sig_diff_self xs ys (omega arith))

All-drop : (n : ℕ) (xs : Bytes) → All (λ b. b < 256) xs → All (λ b. b < 256) (drop n xs)
All-drop zero xs h = h
All-drop (suc n) [] h = tt
All-drop (suc n) (x ∷ xs) h = All-drop n xs h.1

-- The two digests that make up the expected signature.
abbrev pub r_part : Sha256Digest → Bytes
r_part digest = sha256_impl (digest ++ mock_master_salt)

abbrev pub s_part : Sha256Digest → Bytes
s_part digest = sha256_impl (mock_master_salt ++ digest)

signature_matches_iff :
    (signature : CryptoSignature) (digest : Sha256Digest)
    → IsArray ecc_signature_len signature
    → (signature_matches signature digest ≡ true) ↔ (
        (take sha256_digest_len signature ≡ r_part digest)
        × (drop sha256_digest_len signature ≡ s_part digest))
unfolding signature_matches
signature_matches_iff signature digest h =
    let r = r_part digest in
    let s = s_part digest in
    let lo = take sha256_digest_len signature in
    let hi = drop sha256_digest_len signature in
    let hr = sha256_impl-IsArray (digest ++ mock_master_salt) in
    let hs = sha256_impl-IsArray (mock_master_salt ++ digest) in
    let hlo : IsArray sha256_digest_len lo = (
      length-take sha256_digest_len signature (omega (arith, h.0)),
      All-take (λ b. b < 256) sha256_digest_len signature h.1,
    ) in
    let hhi : IsArray sha256_digest_len hi = (
      omega (arith, length-drop sha256_digest_len signature, h.0),
      All-drop sha256_digest_len signature h.1,
    ) in
    (
      (λ e.
          (let (_, left, right) =
              sig_diff-eq_zero sha256_digest_len 0 lo r hi s (omega arith) hlo hr hhi hs
                ((==_iff (sig_diff 0 lo r hi s) 0).0 e) in
            (left, right))),
      (λ (e, e'). rw (e, e', sig_diff_self r s (hr.0 ∙ sym hs.0))),
    )

-- The check accepts exactly the signatures under the mock key whose first half is the digest of digest
-- and salt, and whose second half is the digest of salt and digest; the register is left alone.
pub verify_ecc_signature_lem :
    (state : ℕ) (digest : Sha256Digest) (signature : CryptoSignature) (public_key : EccPublicKey)
    → IsArray ecc_signature_len signature
    → IsArray ecc_public_key_len public_key
    → let out = verify_ecc_signature state digest signature public_key in
      ((out.0 ≡ CryptoStatus.ok) ↔ (
        (public_key ≡ mock_ecc_public_key)
        × (take sha256_digest_len signature ≡ r_part digest)
        × (drop sha256_digest_len signature ≡ s_part digest)))
      × (out.1 ≡ state)
unfolding verify_ecc_signature
verify_ecc_signature_lem state digest signature public_key hs hk =
    let key = same_bytes_iff ecc_public_key_len public_key mock_ecc_public_key hk (omega arith) in
    let sig = signature_matches_iff signature digest hs in
    elim (Bool-cases (same_bytes public_key mock_ecc_public_key)) [
      | inr other ↦
          rw other ((λ e. absurd (cc), λ (e, _, _). absurd (ground (arith, key.1 e))), refl)
      | inl same ↦ elim (Bool-cases (signature_matches signature digest)) [
        | inl good ↦
            rw (same, good) ((λ e. (key.0 same, (sig.0 good).0, (sig.0 good).1), λ e. refl), refl)
        | inr bad ↦
            rw (same, bad)
              ((λ e. absurd (cc), λ (_, l, r). absurd (ground (arith, sig.1 (l, r)))), refl)
      ]
    ]
