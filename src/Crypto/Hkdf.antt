-- ===== src/Crypto/Hkdf.antt =====
-- Key derivation against its description in RFC 5869 and RFC 2104.
use zonal_zero_trust_auth.Base.{ℕ, ◌≡◌, refl, ap, ◌∙◌, [], ◌∷◌, ◌++◌, replicate}
use zonal_zero_trust_auth.Platform.{
  Bytes, Nonce, ClientId, SessionKey, CryptoStatus, IsArray, session_key_len,
}
use zonal_zero_trust_auth.Crypto.Constants.{hkdf_info, mock_master_salt}
use zonal_zero_trust_auth.Crypto.Sha256.{sha256_impl}
use zonal_zero_trust_auth.Crypto.Bounds.{sha256_impl-IsArray}
use zonal_zero_trust_auth.Crypto.Provider.{xor_key, extract_prk, expand_okm, derive_session_key}

-- HMAC for a key that is no longer than a block, and HKDF for one block of output.
unfoldable pub hmac : Bytes → Bytes → Bytes
hmac key message =
    sha256_impl
      (xor_key (replicate 64 0x5c) key ++ sha256_impl (xor_key (replicate 64 0x36) key ++ message))

abbrev pub hkdf : Bytes → Bytes → Bytes → Bytes
hkdf salt ikm info = hmac (hmac salt ikm) (info ++ 1 ∷ [])

extract_prk-hmac :
    (nonce : Nonce) (client_id : ClientId)
    → extract_prk nonce client_id ≡ hmac mock_master_salt (nonce ++ client_id)
unfolding extract_prk hmac
extract_prk-hmac nonce client_id = refl

expand_okm-hmac : (prk : Bytes) → expand_okm prk ≡ hmac prk (hkdf_info ++ 1 ∷ [])
unfolding expand_okm hmac
expand_okm-hmac prk = refl

expand_okm-IsArray : (prk : Bytes) → IsArray session_key_len (expand_okm prk)
unfolding expand_okm
expand_okm-IsArray prk = sha256_impl-IsArray _

pub derive_session_key_lem :
    (state : ℕ) (nonce : Nonce) (client_id : ClientId) (old : SessionKey)
    → let out = derive_session_key state nonce client_id old in
      (out ≡ (CryptoStatus.ok, hkdf mock_master_salt (nonce ++ client_id) hkdf_info, state))
      × IsArray session_key_len out.1
unfolding derive_session_key
derive_session_key_lem state nonce client_id old =
    let prk = extract_prk nonce client_id in
    let okm =
      expand_okm-hmac prk
      ∙ ap (λ k. hmac k (hkdf_info ++ 1 ∷ [])) (extract_prk-hmac nonce client_id) in
    (ap (λ (key : SessionKey). (CryptoStatus.ok, key, state)) okm, expand_okm-IsArray prk)
