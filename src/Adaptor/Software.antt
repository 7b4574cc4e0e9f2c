-- ===== src/Adaptor/Software.antt =====
-- The adaptor on the software provider: who logs in with which signature, and which keys come out.
use zonal_zero_trust_auth.Base.{
  ℕ, ◌≡◌, ◌≤◌, refl, sym, ap, ◌∙◌, List, ◌++◌, Bool, true, false, Option, some, length, ◌==◌,
  length-append, take-append, drop-append, arith,
}
use zonal_zero_trust_auth.Platform.{
  ClientId, Nonce, CryptoSignature, EccPublicKey, SessionKey, Sha256Digest, CryptoStatus,
  IsClientId, IsArray, ecc_signature_len, ecc_public_key_len, sha256_digest_len, session_key_len,
  zeros,
}
use zonal_zero_trust_auth.ConstantTime.{same_bytes, same_bytes_iff}
use zonal_zero_trust_auth.Engine.{KnownPeerEntry}
use zonal_zero_trust_auth.Tlm.{age_ms, token_lifetime_ms}
use zonal_zero_trust_auth.Engine.Typed.{FillsArrays}
use zonal_zero_trust_auth.Crypto.Lfsr.{lfsr_words-IsArray}
use zonal_zero_trust_auth.Crypto.Constants.{hkdf_info, mock_master_salt, mock_ecc_public_key}
use zonal_zero_trust_auth.Crypto.Sha256.{sha256_impl}
use zonal_zero_trust_auth.Crypto.Bounds.{IsArray-append, sha256_impl-IsArray}
use zonal_zero_trust_auth.Crypto.Provider.{
  lfsr_words, generate_random_nonce, compute_sha256, verify_ecc_signature, software_provider,
}
use zonal_zero_trust_auth.Crypto.Signature.{r_part, s_part, verify_ecc_signature_lem}
use zonal_zero_trust_auth.Crypto.Hkdf.{hkdf, derive_session_key_lem}
use zonal_zero_trust_auth.Adaptor.{AdaptorStatus, Adaptor, construct, is_session_active}
use zonal_zero_trust_auth.Adaptor.Valid.{IsValid, IsBacked, peer_key}
use zonal_zero_trust_auth.Adaptor.Events.{Event, AllTyped, run}
use zonal_zero_trust_auth.Adaptor.Gate.{run-is_session_active}
use zonal_zero_trust_auth.Adaptor.Login.{MayLogIn, responded-LogsIn, LogsIn}
use zonal_zero_trust_auth.Adaptor.Login.Exchange.{Serves}

-- The next nonce of a provider whose register is given, and the mock signature of a challenge.
abbrev pub next_nonce : ℕ → Nonce
next_nonce s = (lfsr_words s 8).0

abbrev pub challenge_digest : Nonce → ClientId → Sha256Digest
challenge_digest nonce x = sha256_impl (nonce ++ x)

abbrev pub sign : Nonce → ClientId → CryptoSignature
sign nonce x = r_part (challenge_digest nonce x) ++ s_part (challenge_digest nonce x)

-- The key of a session: HKDF-SHA-256 of nonce and identifier.
abbrev pub session_key : Nonce → ClientId → SessionKey
session_key nonce x = hkdf mock_master_salt (nonce ++ x) hkdf_info

module _ (nonce : Nonce) (x : ClientId) where
  abbrev digest : Sha256Digest
  digest = challenge_digest nonce x

  abbrev r_IsArray : IsArray sha256_digest_len (r_part digest)
  r_IsArray = sha256_impl-IsArray (digest ++ mock_master_salt)

  pub sign-IsArray : IsArray ecc_signature_len (sign nonce x)
  sign-IsArray =
      IsArray-append sha256_digest_len sha256_digest_len (r_part digest) (s_part digest) r_IsArray
        (sha256_impl-IsArray (mock_master_salt ++ digest))

  verify_ecc_signature-sign :
      (s : ℕ)
      → verify_ecc_signature s digest (sign nonce x) mock_ecc_public_key ≡ (CryptoStatus.ok, s)
  verify_ecc_signature-sign s =
      let (accepts, same) =
        verify_ecc_signature_lem s digest (sign nonce x) mock_ecc_public_key sign-IsArray
          (omega arith) in
      let r = r_part digest in
      let good = accepts.1 (
        refl,
        take-append sha256_digest_len r (s_part digest) (r_IsArray.0),
        drop-append sha256_digest_len r (s_part digest) (r_IsArray.0),
      ) in
      λ i. (good i, same i)

  hashed :
      (s : ℕ)
      → IsClientId x
      → (old : Sha256Digest)
      → compute_sha256 s (some (nonce ++ x)) old ≡ (CryptoStatus.ok, digest, s)
  unfolding compute_sha256
  hashed s hx old =
      let some_input : (length (nonce ++ x) == 0) ≡ false =
        ground (arith, length-append nonce x, hx.0) in
      rw some_input refl

accepted_key :
    (s : ℕ) (digest : Sha256Digest) (signature : CryptoSignature) (key : EccPublicKey)
    → (verify_ecc_signature s digest signature key).0 ≡ CryptoStatus.ok
    → same_bytes key mock_ecc_public_key ≡ true
unfolding verify_ecc_signature
accepted_key s digest signature key e = ground arith

-- The software provider serves a peer that signs with the mock scheme.
software_provider-Serves :
    (s : ℕ) (x : ClientId)
    → IsClientId x
    → let nonce = next_nonce s in
      Serves software_provider s x mock_ecc_public_key (sign nonce x) nonce (session_key nonce x)
unfolding generate_random_nonce
software_provider-Serves s x hx =
    let nonce = next_nonce s in
    let s1 = (lfsr_words s 8).1 in
    record {
      digest = challenge_digest nonce x;
      s1 = s1;
      s2 = s1;
      s3 = s1;
      s4 = s1;
      drawn = refl;
      hashed = hashed nonce x s1 hx (zeros sha256_digest_len);
      signed = verify_ecc_signature-sign nonce x s1;
      derived = (derive_session_key_lem s1 nonce x (zeros session_key_len)).0;
    }

-- The provider fills nonces and keys with bytes.
pub software_provider-FillsArrays : FillsArrays software_provider
unfolding generate_random_nonce
software_provider-FillsArrays = record {
  nonce = λ s old h. lfsr_words-IsArray s 8;
  session_key = λ s nonce x old h. (derive_session_key_lem s nonce x old).1;
}

module _ (table : Option (List KnownPeerEntry)) (count : ℕ) where
  -- On the software provider, a client that may log in and is known by the mock public key logs in with
  -- the mock signature of the challenge: all three calls are answered with kOk, and right after that the
  -- gate hands out HKDF-SHA-256 of nonce and identifier at every time that is no more than the lifetime
  -- of a token after the response.
  pub software_provider-LogsIn :
      (a : Adaptor software_provider)
      → IsValid software_provider table count a
      → (x : ClientId) → IsClientId x
      → MayLogIn software_provider table count a x mock_ecc_public_key
      → (now later : ℕ) (old : SessionKey) → age_ms later now ≤ token_lifetime_ms
      → let nonce = next_nonce a.platform in
        LogsIn software_provider table count a x
          (sign nonce x)
          nonce
          (session_key nonce x)
          now
          later
          old
  software_provider-LogsIn a v x hx may now later old young =
      let nonce = next_nonce a.platform in
      responded-LogsIn software_provider table count a v x hx mock_ecc_public_key may (sign nonce x)
        (sign-IsArray nonce x).0 nonce (session_key nonce x)
        (software_provider-Serves a.platform x hx) now later old young

  IsBacked-session_key :
      (x : ClientId) (nonce : Nonce) (session : SessionKey)
      → IsBacked software_provider table count x nonce session
      → ((key : EccPublicKey)
          → peer_key software_provider table count x ≡ some key
          → IsArray ecc_public_key_len key)
      → (session ≡ session_key nonce x)
        × (peer_key software_provider table count x ≡ some mock_ecc_public_key)
  IsBacked-session_key x nonce session b typed =
      let w = b.vouched in
      let derived = (derive_session_key_lem w.s2 nonce x (zeros session_key_len)).0 in
      let same =
        same_bytes_iff ecc_public_key_len b.key mock_ecc_public_key (typed b.key b.known)
          (omega arith) in
      (
        sym (ap (λ (r : CryptoStatus × SessionKey × ℕ). r.1) w.derived)
            ∙ ap (λ (r : CryptoStatus × SessionKey × ℕ). r.1) derived,
        b.known
            ∙ ap some (
                same.0 (
                  accepted_key w.s1 w.digest w.response.signature b.key
                    (ap (λ (r : CryptoStatus × ℕ). r.0) w.signed))),
      )

  -- On an adaptor fresh from its constructor over the software provider, with keys of 33 bytes in the
  -- peer table and after any history of hook calls: if `IsSessionActive` answers kOk for a client, then
  -- the peer table holds the mock public key for this client, and the key handed out is HKDF-SHA-256,
  -- under the master salt, of the session's nonce and the client's identifier.
  pub software_provider-is_session_active :
      ((x : ClientId) (key : EccPublicKey)
        → peer_key software_provider table count x ≡ some key
        → IsArray ecc_public_key_len key)
      → (register : ℕ) (has_transmit has_callback : Bool) (es : List Event) → AllTyped es
      → (x : ClientId) → IsClientId x
      → (now : ℕ) (old : SessionKey)
      → let p = software_provider in
        let a = run p (construct p register table count has_transmit has_callback) es in
        (is_session_active p a x now (some old)).0 ≡ AdaptorStatus.ok
        → (peer_key p table count x ≡ some mock_ecc_public_key)
          × ((nonce : Nonce) × ((is_session_active p a x now (some old)).1
                ≡ some (session_key nonce x)))
  software_provider-is_session_active typed register has_transmit has_callback es t x hx now old h =
      let (session, out, admitted) =
        run-is_session_active software_provider table count register has_transmit has_callback es t
          x hx now old h in
      let (same, known) = IsBacked-session_key x admitted.nonce session admitted.backed (typed x) in
      (known, (admitted.nonce, out ∙ ap some same))
