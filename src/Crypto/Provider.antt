-- ===== src/Crypto/Provider.antt =====
-- src/CryptoPlatformInterface.cpp, `SoftwareCryptoProvider`: its methods, and the provider as a
-- platform. Its state is the register of the LFSR.
use Prim.Native.Nat.{bit_and, bit_or, bit_xor}
use zonal_zero_trust_auth.Base.{
  ℕ, zero, suc, ◌/◌, ◌%◌, [], ◌∷◌, ◌++◌, Bool, not, Option, none, some, length, take, drop,
  replicate, ◌==◌, if◌then◌else◌,
}
use zonal_zero_trust_auth.Platform.{
  Bytes, Nonce, ClientId, CryptoSignature, EccPublicKey, SessionKey, Sha256Digest, CryptoStatus,
  CryptoPlatform, sha256_digest_len,
}
use zonal_zero_trust_auth.ConstantTime.{same_bytes}
use zonal_zero_trust_auth.Crypto.Words.{word_bytes}
use zonal_zero_trust_auth.Crypto.Constants.{hkdf_info, mock_master_salt, mock_ecc_public_key}
use zonal_zero_trust_auth.Crypto.Sha256.{sha256_impl}

-- The constructor: the register is never 0.
unfoldable pub lfsr_seed : ℕ → ℕ
lfsr_seed seed = if seed == 0 then 1 else seed

unfoldable pub lfsr_next : ℕ → ℕ
lfsr_next s = if bit_and s 1 == 0 then s / 2 else bit_xor (s / 2) 0xb4000000

-- The bytes of so many words, and the register behind them.
unfoldable pub lfsr_words : ℕ → ℕ → Bytes × ℕ
lfsr_words s zero = ([], s)
lfsr_words s (suc k) =
    let (bytes, s') = lfsr_words s k in (bytes ++ word_bytes (lfsr_next s'), lfsr_next s')

unfoldable pub generate_random_nonce : ℕ → Nonce → CryptoStatus × Nonce × ℕ
generate_random_nonce s old = let (bytes, s') = lfsr_words s 8 in (CryptoStatus.ok, bytes, s')

unfoldable pub compute_sha256 : ℕ → Option Bytes → Sha256Digest → CryptoStatus × Sha256Digest × ℕ
compute_sha256 s none digest = (CryptoStatus.invalid_param, digest, s)
compute_sha256 s (some input) digest =
    if length input == 0
    then (CryptoStatus.invalid_param, digest, s)
    else (CryptoStatus.ok, sha256_impl input, s)

-- The loop over both halves of the signature.
unfoldable pub sig_diff : ℕ → Bytes → Bytes → Bytes → Bytes → ℕ
sig_diff diff (x ∷ xs) (r ∷ rs) (y ∷ ys) (s ∷ ss) =
    sig_diff (bit_or (bit_or diff (bit_xor x r) % 256) (bit_xor y s) % 256) xs rs ys ss
sig_diff diff xs rs ys ss = diff

unfoldable pub signature_matches : CryptoSignature → Sha256Digest → Bool
signature_matches signature digest =
    let r_part = sha256_impl (digest ++ mock_master_salt) in
    let s_part = sha256_impl (mock_master_salt ++ digest) in
    sig_diff 0 (take sha256_digest_len signature) r_part (drop sha256_digest_len signature) s_part
    == 0

unfoldable pub verify_ecc_signature :
    ℕ → Sha256Digest → CryptoSignature → EccPublicKey → CryptoStatus × ℕ
verify_ecc_signature s digest signature public_key =
    if not (same_bytes public_key mock_ecc_public_key)
    then (CryptoStatus.verify_failed, s)
    else if signature_matches signature digest
    then (CryptoStatus.ok, s)
    else (CryptoStatus.verify_failed, s)

-- `block[i] ^= key[i]` over the key.
unfoldable pub xor_key : Bytes → Bytes → Bytes
xor_key [] key = []
xor_key (b ∷ block) [] = b ∷ block
xor_key (b ∷ block) (k ∷ key) = bit_xor b k ∷ xor_key block key

abbrev pub ipad : Bytes → Bytes
ipad key = xor_key (replicate 64 0x36) key

abbrev pub opad : Bytes → Bytes
opad key = xor_key (replicate 64 0x5c) key

-- Step 1, Extract.
unfoldable pub extract_prk : Nonce → ClientId → Sha256Digest
extract_prk nonce client_id =
    let inner_hash = sha256_impl (ipad mock_master_salt ++ (nonce ++ client_id)) in
    sha256_impl (opad mock_master_salt ++ inner_hash)

-- Step 2, Expand.
unfoldable pub expand_okm : Sha256Digest → Sha256Digest
expand_okm prk =
    let t1_inner = sha256_impl (ipad prk ++ (hkdf_info ++ 0x01 ∷ [])) in
    sha256_impl (opad prk ++ t1_inner)

unfoldable pub derive_session_key :
    ℕ → Nonce → ClientId → SessionKey → CryptoStatus × SessionKey × ℕ
derive_session_key s nonce client_id old =
    (CryptoStatus.ok, expand_okm (extract_prk nonce client_id), s)

abbrev pub software_provider : CryptoPlatform
software_provider = record {
  State = ℕ;
  generate_random_nonce = generate_random_nonce;
  compute_sha256 = compute_sha256;
  verify_ecc_signature = verify_ecc_signature;
  derive_session_key = derive_session_key;
}
