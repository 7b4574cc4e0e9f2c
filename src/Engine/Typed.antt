-- ===== src/Engine/Typed.antt =====
-- The arrays of an engine keep their sizes, and hold bytes, on a platform that fills its out
-- parameters with bytes.
use mathlib.Core.Path.{subst}
use zonal_zero_trust_auth.Base.{
  ℕ, zero, suc, ◌<◌, ◌≡◌, ◌⊎◌, ap, All, length-replicate, arith, inl, inr,
}
use zonal_zero_trust_auth.Platform.{
  Nonce, ClientId, SessionKey, CryptoStatus, IsArray, IsClientId, CryptoPlatform, zeros, nonce_len,
  client_id_len, session_key_len,
}
use zonal_zero_trust_auth.Engine.{
  SpdmProtocolEngine, SpdmAuthRequest, SpdmAuthResponse, SpdmSessionToken, SpdmStatus,
  process_auth_request, process_auth_response, revoke, reset,
}
use zonal_zero_trust_auth.Engine.Handshake.{
  Accepts-process_auth_response, process_auth_response-Accepts, process_auth_response-refused,
  status-ok_or,
}

pub zeros-IsArray : (n : ℕ) → IsArray n (zeros n)
zeros-IsArray n = (length-replicate n 0, all_zeros n)
  where
    all_zeros : (n : ℕ) → All (λ b. b < 256) (zeros n)
    all_zeros zero = tt
    all_zeros (suc n) = (omega arith, all_zeros n)

-- What the interface documents of its out parameters.
pub record FillsArrays (p : CryptoPlatform) : Type 0 where
  pub nonce :
      (s : p.State) (old : Nonce)
      → IsArray nonce_len old
      → IsArray nonce_len (p.generate_random_nonce s old).1
  pub session_key :
      (s : p.State) (nonce : Nonce) (x : ClientId) (old : SessionKey)
      → IsArray session_key_len old
      → IsArray session_key_len (p.derive_session_key s nonce x old).1

pub record IsTyped (e : SpdmProtocolEngine) : Type 0 where
  pub pending_nonce : IsArray nonce_len e.pending_nonce
  pub pending_client_id : IsClientId e.pending_client_id
  pub authenticated_client_id : IsClientId e.authenticated_client_id

pub record IsToken (token : SpdmSessionToken) : Type 0 where
  pub client_id : IsClientId token.client_id
  pub session_nonce : IsArray nonce_len token.session_nonce
  pub session_key : IsArray session_key_len token.session_key

pub revoke-IsTyped : (e : SpdmProtocolEngine) → IsTyped e → IsTyped (revoke e)
unfolding revoke
revoke-IsTyped e t = record {
  pending_nonce = zeros-IsArray nonce_len;
  pending_client_id = zeros-IsArray client_id_len;
  authenticated_client_id = t.authenticated_client_id;
}

pub reset-IsTyped : (e : SpdmProtocolEngine) → IsTyped (reset e)
unfolding reset
reset-IsTyped e = record {
  pending_nonce = zeros-IsArray nonce_len;
  pending_client_id = zeros-IsArray client_id_len;
  authenticated_client_id = zeros-IsArray client_id_len;
}

module _ (p : CryptoPlatform) (fills : FillsArrays p) where
  -- What a request may do to the arrays.
  request_cases :
      (e : SpdmProtocolEngine) (request : SpdmAuthRequest) (s : p.State)
      → let out = process_auth_request p e request s in
        let drawn = (p.generate_random_nonce s e.pending_nonce).1 in
        (out.engine.authenticated_client_id ≡ e.authenticated_client_id)
        × ((out.engine.pending_nonce ≡ e.pending_nonce) ⊎ (out.engine.pending_nonce ≡ drawn))
        × ((out.engine.pending_client_id ≡ e.pending_client_id)
            ⊎ (out.engine.pending_client_id ≡ request.client_id))
  unfolding process_auth_request
  request_cases e request s = ground arith

  pub request-IsTyped :
      (e : SpdmProtocolEngine) (request : SpdmAuthRequest) (s : p.State)
      → IsClientId request.client_id
      → IsTyped e
      → IsTyped (process_auth_request p e request s).engine
  request-IsTyped e request s id t =
      let (same, nonce, pending) = request_cases e request s in
      record {
        pending_nonce = elim nonce [
          | inl q ↦ rw q t.pending_nonce
          | inr q ↦ rw q (fills.nonce s e.pending_nonce t.pending_nonce)
        ];
        pending_client_id = elim pending [ inl q ↦ rw q t.pending_client_id | inr q ↦ rw q id ];
        authenticated_client_id = rw same t.authenticated_client_id;
      }

  module _ (e : SpdmProtocolEngine) (response : SpdmAuthResponse) (token : SpdmSessionToken)
      (s : p.State) (id : IsClientId response.client_id) (t : IsTyped e) where
    pub response-IsToken :
        let out = process_auth_response p e response token s in
        out.status ≡ SpdmStatus.ok → IsToken out.token
    response-IsToken h =
        let (key, session, s3, a) = process_auth_response-Accepts p e response token s h in
        let filled =
          fills.session_key a.s2 e.pending_nonce response.client_id (zeros session_key_len)
            (zeros-IsArray session_key_len) in
        let typed : IsArray session_key_len session =
          subst (IsArray session_key_len)
            (ap (λ (r : CryptoStatus × SessionKey × p.State). r.1) a.derived) filled in
        rw (Accepts-process_auth_response p e response token s a)
          (record { client_id = id; session_nonce = t.pending_nonce; session_key = typed })

    pub response-IsTyped : IsTyped (process_auth_response p e response token s).engine
    response-IsTyped = elim (status-ok_or (process_auth_response p e response token s).status) [
      | inl h ↦
          let (key, session, s3, a) = process_auth_response-Accepts p e response token s h in
          rw (Accepts-process_auth_response p e response token s a) (record {
            pending_nonce = t.pending_nonce;
            pending_client_id = t.pending_client_id;
            authenticated_client_id = id;
          })
      | inr n ↦ elim (process_auth_response-refused p e response token s n).1 [
        | inl (_, _, same, _) ↦ rw same t
        | inr (_, revoked) ↦ rw revoked (revoke-IsTyped e t)
      ]
    ]
