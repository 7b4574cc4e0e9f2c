-- ===== src/Engine.antt =====
-- include/zzta/SpdmProtocolEngine.hpp and src/SpdmProtocolEngine.cpp: the challenge-response
-- handshake of one peer as a state machine of four states.
-- The platform `p` stands for the reference `crypto_pal_`; its state is an argument of each operation
-- that calls it, and part of what the operation returns.
mod Data
pub mod Transitions
pub mod Handshake
pub mod Replay
pub mod Request
pub mod Revoked
pub mod Typed
use zonal_zero_trust_auth.Base.{
  ℕ, ◌+◌, List, [], ◌∷◌, ◌++◌, Bool, true, false, not, Option, none, some, take, ◌==◌, leb,
  if◌then◌else◌,
}
use zonal_zero_trust_auth.Platform.{
  Bytes, Nonce, ClientId, CryptoSignature, EccPublicKey, SessionKey, Sha256Digest, CryptoStatus,
  CryptoPlatform, zeros, nonce_len, client_id_len, session_key_len, sha256_digest_len,
  ecc_signature_len,
}
use zonal_zero_trust_auth.ConstantTime.{same_bytes}
pub use Data.{
  spdm_auth_request_len, spdm_auth_response_len, SpdmAuthRequest, SpdmAuthResponse,
  SpdmSessionToken, SpdmStatus, max_known_peers, KnownPeerEntry, State, supported_version,
  SpdmProtocolEngine, get_state, get_pending_challenge, get_authenticated_client_id,
}

unfoldable pub construct : Option (List KnownPeerEntry) → ℕ → SpdmProtocolEngine
construct peer_table peer_count = record {
  peer_table = peer_table;
  peer_count = if leb peer_count max_known_peers then peer_count else max_known_peers;
  state = State.unauthenticated;
  pending_nonce = zeros nonce_len;
  pending_client_id = zeros client_id_len;
  authenticated_client_id = zeros client_id_len;
}

unfoldable pub sanitise_secret_material : SpdmProtocolEngine → SpdmProtocolEngine
sanitise_secret_material e = record e {
  pending_nonce = zeros nonce_len;
  pending_client_id = zeros client_id_len;
}

unfoldable pub revoke : SpdmProtocolEngine → SpdmProtocolEngine
unfolding sanitise_secret_material
revoke e = record (sanitise_secret_material e) { state = State.revoked }

unfoldable pub reset : SpdmProtocolEngine → SpdmProtocolEngine
unfolding sanitise_secret_material
reset e = record (sanitise_secret_material e) {
  authenticated_client_id = zeros client_id_len;
  state = State.unauthenticated;
}

-- The loop over the table, up to `peer_count` entries.
unfoldable pub find_key : ClientId → List KnownPeerEntry → Option EccPublicKey
find_key client_id [] = none
find_key client_id (entry ∷ entries) =
    if same_bytes client_id entry.client_id
    then some entry.public_key
    else find_key client_id entries

-- `none` is the result `false`, which leaves `key_out` alone.
unfoldable pub find_peer_public_key : SpdmProtocolEngine → ClientId → Option EccPublicKey
unfolding find_key
find_peer_public_key e client_id = elim e.peer_table [
  | none ↦ none
  | some table ↦ find_key client_id (take e.peer_count table)
]

-- The comparison loop with its `break`. Both arrays have four elements.
unfoldable pub version_matches : Bytes → Bytes → Bool
version_matches [] ys = true
version_matches (x ∷ xs) [] = true
version_matches (x ∷ xs) (y ∷ ys) = if x == y then version_matches xs ys else false

abbrev pub is_unauthenticated : State → Bool
is_unauthenticated State.unauthenticated = true
is_unauthenticated _ = false

abbrev pub is_challenge_sent : State → Bool
is_challenge_sent State.challenge_sent = true
is_challenge_sent _ = false

abbrev pub is_authenticated : State → Bool
is_authenticated State.authenticated = true
is_authenticated _ = false

abbrev pub crypto_ok : CryptoStatus → Bool
crypto_ok CryptoStatus.ok = true
crypto_ok _ = false

abbrev pub is_verify_failed : CryptoStatus → Bool
is_verify_failed CryptoStatus.verify_failed = true
is_verify_failed _ = false

-- What `ProcessAuthRequest` leaves behind.
pub record Requested (S : Type 0) : Type 0 where
  pub status : SpdmStatus
  pub engine : SpdmProtocolEngine
  pub platform : S

-- What `ProcessAuthResponse` leaves behind, the out parameter `session_token_out` included.
pub record Responded (S : Type 0) : Type 0 where
  pub status : SpdmStatus
  pub engine : SpdmProtocolEngine
  pub token : SpdmSessionToken
  pub platform : S

module _ (p : CryptoPlatform) where
  unfoldable pub compute_challenge_digest :
      p.State → Nonce → ClientId → Sha256Digest → CryptoStatus × Sha256Digest × p.State
  compute_challenge_digest s nonce client_id digest =
      p.compute_sha256 s (some (nonce ++ client_id)) digest

  -- The part of `ProcessAuthRequest` behind its guards.
  unfoldable pub issue_challenge :
      SpdmProtocolEngine → SpdmAuthRequest → p.State → Requested p.State
  issue_challenge e request s =
      let (rng_status, nonce, s') = p.generate_random_nonce s e.pending_nonce in
      if crypto_ok rng_status
      then record {
        status = SpdmStatus.ok;
        engine = record e {
          pending_nonce = nonce;
          pending_client_id = request.client_id;
          state = State.challenge_sent;
        };
        platform = s';
      }
      else record {
        status = SpdmStatus.crypto_error;
        engine = record e { pending_nonce = nonce };
        platform = s';
      }

  unfoldable pub process_auth_request :
      SpdmProtocolEngine → SpdmAuthRequest → p.State → Requested p.State
  unfolding issue_challenge
  process_auth_request e request s =
      if not (is_unauthenticated e.state)
      then record {
        status =
            if is_authenticated e.state
            then SpdmStatus.already_authenticated
            else SpdmStatus.invalid_state;
        engine = e;
        platform = s;
      }
      else if not (version_matches request.version supported_version)
      then record { status = SpdmStatus.version_mismatch; engine = e; platform = s }
      else elim (find_peer_public_key e request.client_id) [
        | none ↦ record { status = SpdmStatus.signature_invalid; engine = e; platform = s }
        | some dummy_key ↦ issue_challenge e request s
      ]

  -- A refusal that revokes the engine.
  abbrev pub refuse :
      SpdmStatus → SpdmProtocolEngine → SpdmSessionToken → p.State → Responded p.State
  refuse status e token s = record {
    status = status;
    engine = revoke e;
    token = token;
    platform = s;
  }

  -- The last part of `ProcessAuthResponse`: key derivation, the token, the new state.
  unfoldable pub derive_token :
      SpdmProtocolEngine → SpdmAuthResponse → SpdmSessionToken → p.State → Responded p.State
  derive_token e response token s =
      let (kdf_status, derived_key, s') =
        p.derive_session_key s e.pending_nonce response.client_id (zeros session_key_len) in
      if crypto_ok kdf_status
      then record {
        status = SpdmStatus.ok;
        engine = record e {
          authenticated_client_id = response.client_id;
          state = State.authenticated;
        };
        token = record {
          client_id = response.client_id;
          session_nonce = e.pending_nonce;
          session_key = derived_key;
        };
        platform = s';
      }
      else refuse SpdmStatus.crypto_error e token s'

  -- The middle part: the digest of the challenge, and the signature over it.
  unfoldable pub verify_response :
      SpdmProtocolEngine
      → SpdmAuthResponse
      → EccPublicKey
      → SpdmSessionToken
      → p.State
      → Responded p.State
  unfolding derive_token compute_challenge_digest
  verify_response e response key token s =
      let (digest_status, digest, s1) =
        compute_challenge_digest s e.pending_nonce response.client_id (zeros sha256_digest_len) in
      if crypto_ok digest_status
      then (let (verify_status, s2) = p.verify_ecc_signature s1 digest response.signature key in
          if crypto_ok verify_status
          then derive_token e response token s2
          else refuse
              (if is_verify_failed verify_status
                then SpdmStatus.signature_invalid
                else SpdmStatus.crypto_error)
              e token s2)
      else refuse SpdmStatus.crypto_error e token s1

  unfoldable pub process_auth_response :
      SpdmProtocolEngine → SpdmAuthResponse → SpdmSessionToken → p.State → Responded p.State
  unfolding verify_response
  process_auth_response e response token s =
      if not (is_challenge_sent e.state)
      then record { status = SpdmStatus.invalid_state; engine = e; token = token; platform = s }
      else if not (same_bytes response.client_id e.pending_client_id)
      then refuse SpdmStatus.client_id_mismatch e token s
      else elim (find_peer_public_key e response.client_id) [
        | none ↦ refuse SpdmStatus.signature_invalid e token s
        | some key ↦ verify_response e response key token s
      ]
