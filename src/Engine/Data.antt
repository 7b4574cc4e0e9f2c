-- ===== src/Engine/Data.antt =====
-- include/zzta/SpdmProtocolEngine.hpp: the frames, the token, the status codes and the state of an
-- engine.
use zonal_zero_trust_auth.Base.{ℕ, ◌+◌, List, [], ◌∷◌, Option}
use zonal_zero_trust_auth.Platform.{
  Bytes, Nonce, ClientId, CryptoSignature, EccPublicKey, SessionKey, client_id_len,
  ecc_signature_len,
}

abbrev pub spdm_auth_request_len : ℕ
spdm_auth_request_len = client_id_len + 4

abbrev pub spdm_auth_response_len : ℕ
spdm_auth_response_len = client_id_len + ecc_signature_len

pub record SpdmAuthRequest : Type 0 where
  pub client_id : ClientId
  pub version : Bytes

pub record SpdmAuthResponse : Type 0 where
  pub client_id : ClientId
  pub signature : CryptoSignature

pub record SpdmSessionToken : Type 0 where
  pub client_id : ClientId
  pub session_nonce : Nonce
  pub session_key : SessionKey

pub data SpdmStatus : Type 0 where
  ok invalid_state version_mismatch client_id_mismatch signature_invalid crypto_error
        already_authenticated revoked invalid_param :
      SpdmStatus

abbrev pub max_known_peers : ℕ
max_known_peers = 8

pub record KnownPeerEntry : Type 0 where
  pub client_id : ClientId
  pub public_key : EccPublicKey

pub data State : Type 0 where
  unauthenticated challenge_sent authenticated revoked : State

abbrev pub supported_version : Bytes
supported_version = 0x01 ∷ 0x10 ∷ 0x00 ∷ 0x00 ∷ []

-- `peer_table` is `none` for `nullptr`; otherwise it points at a table of at least `peer_count` entries.
pub record SpdmProtocolEngine : Type 0 where
  pub peer_table : Option (List KnownPeerEntry)
  pub peer_count : ℕ
  pub state : State
  pub pending_nonce : Nonce
  pub pending_client_id : ClientId
  pub authenticated_client_id : ClientId

abbrev pub get_state : SpdmProtocolEngine → State
get_state e = e.state

abbrev pub get_pending_challenge : SpdmProtocolEngine → Nonce
get_pending_challenge e = e.pending_nonce

abbrev pub get_authenticated_client_id : SpdmProtocolEngine → ClientId
get_authenticated_client_id e = e.authenticated_client_id
