-- ===== src/Engine/Handshake.antt =====
-- `ProcessAuthResponse`: exactly which responses are accepted, and what a refusal leaves behind.
pub mod Outcome
use zonal_zero_trust_auth.Base.{
  ◌≡◌, ◌≢◌, ◌⊎◌, inl, inr, refl, ◌++◌, true, some, Bool-cases, Option-cases, arith,
}
use zonal_zero_trust_auth.Platform.{
  Nonce, ClientId, EccPublicKey, SessionKey, Sha256Digest, CryptoStatus, CryptoPlatform, zeros,
  session_key_len, sha256_digest_len,
}
use zonal_zero_trust_auth.ConstantTime.{same_bytes}
use zonal_zero_trust_auth.Engine.{
  SpdmProtocolEngine, SpdmAuthResponse, SpdmSessionToken, SpdmStatus, State, Responded, crypto_ok,
  is_challenge_sent, find_peer_public_key, derive_token, verify_response, process_auth_response,
  revoke,
}

-- A status is kOk or not.
pub status-ok_or : (st : SpdmStatus) → (st ≡ SpdmStatus.ok) ⊎ (st ≢ SpdmStatus.ok)
status-ok_or st = ground arith

crypto_ok-eq : (st : CryptoStatus) → crypto_ok st ≡ true → st ≡ CryptoStatus.ok
crypto_ok-eq CryptoStatus.ok e = refl
crypto_ok-eq CryptoStatus.invalid_param e = cc
crypto_ok-eq CryptoStatus.hw_fault e = cc
crypto_ok-eq CryptoStatus.verify_failed e = cc
crypto_ok-eq CryptoStatus.not_supported e = cc
crypto_ok-eq CryptoStatus.internal_error e = cc

is_challenge_sent-eq : (st : State) → is_challenge_sent st ≡ true → st ≡ State.challenge_sent
is_challenge_sent-eq State.unauthenticated e = cc
is_challenge_sent-eq State.challenge_sent e = refl
is_challenge_sent-eq State.authenticated e = cc
is_challenge_sent-eq State.revoked e = cc

module _ (p : CryptoPlatform) where
  -- The platform vouches for a session key: over some run of its operations it accepted a signature
  -- by the peer's key over the digest of nonce and identifier, and then derived this key from them.
  pub record Vouched (key : EccPublicKey) (client_id : ClientId) (nonce : Nonce)
      (session : SessionKey) : Type (0) where
    pub response : SpdmAuthResponse
    pub digest : Sha256Digest
    pub s0 : p.State
    pub s1 : p.State
    pub s2 : p.State
    pub s3 : p.State
    pub hashed :
        p.compute_sha256 s0 (some (nonce ++ client_id)) (zeros sha256_digest_len)
        ≡ (CryptoStatus.ok, digest, s1)
    pub signed : p.verify_ecc_signature s1 digest response.signature key ≡ (CryptoStatus.ok, s2)
    pub derived :
        p.derive_session_key s2 nonce client_id (zeros session_key_len)
        ≡ (CryptoStatus.ok, session, s3)

  -- What an accepted response leaves behind.
  abbrev pub accepted_outcome :
      SpdmProtocolEngine → SpdmAuthResponse → SessionKey → p.State → Responded p.State
  accepted_outcome e response session s = record {
    status = SpdmStatus.ok;
    engine = record e { authenticated_client_id = response.client_id; state = State.authenticated };
    token = record {
      client_id = response.client_id;
      session_nonce = e.pending_nonce;
      session_key = session;
    };
    platform = s;
  }

  -- The five checks of the handshake, in the order of the code, on the platform's states as they pass
  -- from one call to the next.
  pub record Accepts (e : SpdmProtocolEngine) (response : SpdmAuthResponse) (s : p.State)
      (key : EccPublicKey) (session : SessionKey) (s3 : p.State) : Type 0 where
    pub digest : Sha256Digest
    pub s1 : p.State
    pub s2 : p.State
    pub waiting : e.state ≡ State.challenge_sent
    pub same_client : same_bytes response.client_id e.pending_client_id ≡ true
    pub known : find_peer_public_key e response.client_id ≡ some key
    pub hashed :
        p.compute_sha256 s (some (e.pending_nonce ++ response.client_id)) (zeros sha256_digest_len)
        ≡ (CryptoStatus.ok, digest, s1)
    pub signed : p.verify_ecc_signature s1 digest response.signature key ≡ (CryptoStatus.ok, s2)
    pub derived :
        p.derive_session_key s2 e.pending_nonce response.client_id (zeros session_key_len)
        ≡ (CryptoStatus.ok, session, s3)

  -- Such a response is accepted, and the outcome is the one above.
  pub Accepts-process_auth_response :
      (e : SpdmProtocolEngine) (response : SpdmAuthResponse) (token : SpdmSessionToken)
      (s : p.State) {key : EccPublicKey} {session : SessionKey} {s3 : p.State}
      → Accepts e response s key session s3
      → process_auth_response p e response token s ≡ accepted_outcome e response session s3
  unfolding process_auth_response
  Accepts-process_auth_response e response token s a =
      simp (a.waiting, a.same_client, a.known, a.hashed, a.signed, a.derived)

  derive_token-ok :
      (e : SpdmProtocolEngine) (response : SpdmAuthResponse) (token : SpdmSessionToken)
      (s : p.State)
      → (derive_token p e response token s).status ≡ SpdmStatus.ok
      → (session : SessionKey) × (s' : p.State) × (p.derive_session_key s e.pending_nonce
            response.client_id
            (zeros session_key_len)
          ≡ (CryptoStatus.ok, session, s'))
  unfolding derive_token
  derive_token-ok e response token s h =
      let out = p.derive_session_key s e.pending_nonce response.client_id (zeros session_key_len) in
      elim (Bool-cases (crypto_ok out.0)) [
        | inl t ↦ (out.1, out.2, λ i. (crypto_ok-eq out.0 t i, out.1, out.2))
        | inr f ↦ ground arith
      ]

  verify_response-ok :
      (e : SpdmProtocolEngine) (response : SpdmAuthResponse) (key : EccPublicKey)
      (token : SpdmSessionToken) (s : p.State)
      → e.state ≡ State.challenge_sent
      → same_bytes response.client_id e.pending_client_id ≡ true
      → find_peer_public_key e response.client_id ≡ some key
      → (verify_response p e response key token s).status ≡ SpdmStatus.ok
      → (session : SessionKey) × (s3 : p.State) × Accepts e response s key session s3
  unfolding verify_response
  verify_response-ok e response key token s waiting same known h =
      let msg = some (e.pending_nonce ++ response.client_id) in
      let hash = p.compute_sha256 s msg (zeros sha256_digest_len) in
      let ver = p.verify_ecc_signature hash.2 hash.1 response.signature key in
      elim (Bool-cases (crypto_ok hash.0)) [
        | inl t ↦ elim (Bool-cases (crypto_ok ver.0)) [
          | inl u ↦
              let (session, s3, d) = derive_token-ok e response token ver.1 (rw (t, u) at h) in
              (
                session,
                s3,
                record {
                  digest = hash.1;
                  s1 = hash.2;
                  s2 = ver.1;
                  waiting = waiting;
                  same_client = same;
                  known = known;
                  hashed = λ i. (crypto_ok-eq hash.0 t i, hash.1, hash.2);
                  signed = λ i. (crypto_ok-eq ver.0 u i, ver.1);
                  derived = d;
                },
              )
          | inr f ↦ ground arith
        ]
        | inr f ↦ ground arith
      ]

  -- Every other response is refused.
  pub process_auth_response-Accepts :
      (e : SpdmProtocolEngine) (response : SpdmAuthResponse) (token : SpdmSessionToken)
      (s : p.State)
      → (process_auth_response p e response token s).status ≡ SpdmStatus.ok
      → (key : EccPublicKey) × (session : SessionKey) × (s3 : p.State) × Accepts e response s key
          session s3
  unfolding process_auth_response
  process_auth_response-Accepts e response token s h =
      let sent = is_challenge_sent e.state in
      let same = same_bytes response.client_id e.pending_client_id in
      elim (Bool-cases sent) [
        | inl w ↦ elim (Bool-cases same) [
          | inl c ↦ elim (Option-cases (find_peer_public_key e response.client_id)) [
            | inl none_found ↦ ground arith
            | inr (key, k) ↦
                let (session, s3, a) =
                  verify_response-ok e response key token s (is_challenge_sent-eq e.state w) c k
                    (ground arith) in
                (key, session, s3, a)
          ]
          | inr d ↦ ground arith
        ]
        | inr n ↦ ground arith
      ]

  -- Every response that is not accepted leaves the token alone. Out of turn it changes nothing; in turn
  -- it revokes the engine, which zeroes the pending nonce and identifier.
  pub process_auth_response-refused :
      (e : SpdmProtocolEngine) (response : SpdmAuthResponse) (token : SpdmSessionToken)
      (s : p.State)
      → let out = process_auth_response p e response token s in
        out.status ≢ SpdmStatus.ok
        → (out.token ≡ token)
          × ((e.state ≢ State.challenge_sent)
                × (out.status ≡ SpdmStatus.invalid_state)
                × (out.engine ≡ e)
                × (out.platform ≡ s)
              ⊎ (e.state ≡ State.challenge_sent) × (out.engine ≡ revoke e))
  unfolding process_auth_response
  process_auth_response-refused e response token s h = ground arith
