-- ===== src/Adaptor.antt =====
-- include/zzta/SomeIpAdaptor.hpp and src/SomeIpAdaptor.cpp: the hooks of the SOME/IP stack over a pool
-- of engines and one session manager.
-- The transmit callback is foreign code; the model keeps the list of the frames handed to it. The
-- platform `p` stands for the reference that all engines share, its state is a field here.
mod Data
pub mod Valid
pub mod Events
pub mod Hooks
pub mod Gate
pub mod Calls
pub mod Housing
pub mod Availability
pub mod Response
pub mod Request
pub mod Replay
pub mod Offer
pub mod Interleaved
pub mod Spec
pub mod Pool
pub mod Login
pub mod Software
pub mod Typed
pub mod Refusals
pub mod Lockout
use zonal_zero_trust_auth.Base.{
  ℕ, List, [], ◌∷◌, ◌++◌, Bool, true, false, not, ◌&&◌, Option, none, some, length, get_or, set,
  replicate, take, drop, find_index, ltb, if◌then◌else◌,
}
use zonal_zero_trust_auth.Platform.{
  Bytes, ClientId, SessionKey, CryptoPlatform, zeros, client_id_len, nonce_len, session_key_len,
  ecc_signature_len,
}
use zonal_zero_trust_auth.ConstantTime.{same_bytes, is_zero}
use zonal_zero_trust_auth.Engine
use zonal_zero_trust_auth.Engine.{
  KnownPeerEntry, SpdmAuthRequest, SpdmAuthResponse, SpdmProtocolEngine, SpdmSessionToken,
  SpdmStatus, Requested, Responded, get_pending_challenge, spdm_auth_request_len,
  spdm_auth_response_len, process_auth_request, process_auth_response,
}
use zonal_zero_trust_auth.Version.{version_word}
use zonal_zero_trust_auth.Tlm
use zonal_zero_trust_auth.Tlm.{TlmStatus, TokenLifecycleManager, Validated}
pub use Data.{
  max_zone_slots, pool_fits, some_ip_method_id_auth_request, some_ip_method_id_auth_response,
  some_ip_method_id_challenge, some_ip_zzta_service_id, some_ip_zzta_instance_id, AdaptorStatus,
  get_version_word, ZoneSlotRecord, Frame, SomeIpAdaptor, empty_record, empty_token, is_bound,
  is_unoccupied, decode_request, decode_response, spdm_ok, tlm_ok, is_tlm_locked_out,
}

module _ (p : CryptoPlatform) where
  abbrev pub Adaptor : Type 0
  Adaptor = SomeIpAdaptor p.State

  unfoldable pub construct : p.State → Option (List KnownPeerEntry) → ℕ → Bool → Bool → Adaptor
  construct platform peer_table peer_count has_transmit has_callback = record {
    engines = replicate max_zone_slots (Engine.construct peer_table peer_count);
    slot_records = replicate max_zone_slots empty_record;
    tlm = Tlm.construct has_callback;
    has_transmit = has_transmit;
    transmitted = [];
    peer_table = peer_table;
    peer_count = peer_count;
    platform = platform;
  }

  -- `engines_[i]`, read and written.
  abbrev pub engine_at : Adaptor → ℕ → SpdmProtocolEngine
  engine_at a i = get_or a.engines i (Engine.construct a.peer_table a.peer_count)

  abbrev pub put_engine : Adaptor → ℕ → SpdmProtocolEngine → Adaptor
  put_engine a i e = record a { engines = set a.engines i e }

  -- `none` is the result `false`, which leaves the out parameter alone.
  unfoldable pub find_slot : Adaptor → ClientId → Option ℕ
  find_slot a client_id = find_index (is_bound client_id) a.slot_records

  unfoldable pub find_free_engine_slot : Adaptor → Option ℕ
  find_free_engine_slot a = find_index is_unoccupied a.slot_records

  -- `OnPeerOffered`, from "Assign the slot" on.
  abbrev pub assign_slot : Adaptor → ℕ → ClientId → Adaptor
  assign_slot a i client_id =
      put_engine
        (record a {
          slot_records =
              set a.slot_records i (record { client_id = client_id; is_occupied = true });
        })
        i (Engine.reset (engine_at a i))

  unfoldable pub on_peer_offered : Adaptor → ClientId → AdaptorStatus × Adaptor
  on_peer_offered a client_id =
      if is_zero client_id
      then (AdaptorStatus.invalid_param, a)
      else if Tlm.is_locked_out a.tlm client_id
      then (AdaptorStatus.locked_out, a)
      else elim (find_slot a client_id) [
        | some i ↦ (AdaptorStatus.ok, put_engine a i (Engine.reset (engine_at a i)))
        | none ↦ elim (find_free_engine_slot a) [
          | none ↦ (AdaptorStatus.slot_exhausted, a)
          | some i ↦ (AdaptorStatus.ok, assign_slot a i client_id)
        ]
      ]

  -- The challenge goes out if there is a callback.
  unfoldable pub transmit_challenge : Adaptor → ℕ → ClientId → Adaptor
  transmit_challenge a i client_id =
      if a.has_transmit
      then record a {
        transmitted =
            a.transmitted
            ++ record {
              client_id = client_id;
              method_id = some_ip_method_id_challenge;
              payload = get_pending_challenge (engine_at a i);
            }
              ∷ [];
      }
      else a

  -- `OnAuthRequest`, once the frame is decoded and its slot is found.
  unfoldable pub forward_request : Adaptor → ℕ → SpdmAuthRequest → AdaptorStatus × Adaptor
  forward_request a i request =
      let out = process_auth_request p (engine_at a i) request a.platform in
      let a' = record (put_engine a i out.engine) { platform = out.platform } in
      if spdm_ok out.status
      then (AdaptorStatus.ok, transmit_challenge a' i request.client_id)
      else (AdaptorStatus.protocol_error, a')

  -- A payload is `none` for `nullptr`, and otherwise the `payload_len` bytes that it points at.
  unfoldable pub on_auth_request : Adaptor → Option Bytes → AdaptorStatus × Adaptor
  on_auth_request a none = (AdaptorStatus.invalid_frame, a)
  on_auth_request a (some payload) =
      if ltb (length payload) spdm_auth_request_len
      then (AdaptorStatus.invalid_frame, a)
      else elim (find_slot a (decode_request payload).client_id) [
        | none ↦ (AdaptorStatus.unknown_peer, a)
        | some i ↦ forward_request a i (decode_request payload)
      ]

  -- `OnAuthResponse`, after a successful handshake.
  unfoldable pub register_session : Adaptor → ℕ → SpdmSessionToken → ℕ → AdaptorStatus × Adaptor
  register_session a i token now =
      let (tlm_st, tlm) = Tlm.register_token a.tlm token now in
      let a' = record a { tlm = tlm } in
      if tlm_ok tlm_st then (AdaptorStatus.ok, a') else (
        if is_tlm_locked_out tlm_st then AdaptorStatus.locked_out else AdaptorStatus.session_error,
        put_engine a' i (Engine.revoke (engine_at a' i)),
      )

  -- `OnAuthResponse`, once the frame is decoded and its slot is found.
  unfoldable pub complete_handshake : Adaptor → ℕ → SpdmAuthResponse → ℕ → AdaptorStatus × Adaptor
  complete_handshake a i response now =
      let out = process_auth_response p (engine_at a i) response empty_token a.platform in
      let a' = record (put_engine a i out.engine) { platform = out.platform } in
      if spdm_ok out.status then register_session a' i out.token now else (
        AdaptorStatus.protocol_error,
        record a' { tlm = (Tlm.revoke_token a'.tlm response.client_id true).1 },
      )

  unfoldable pub on_auth_response : Adaptor → Option Bytes → ℕ → AdaptorStatus × Adaptor
  on_auth_response a none now = (AdaptorStatus.invalid_frame, a)
  on_auth_response a (some payload) now =
      if ltb (length payload) spdm_auth_response_len
      then (AdaptorStatus.invalid_frame, a)
      else elim (find_slot a (decode_response payload).client_id) [
        | none ↦ (AdaptorStatus.unknown_peer, a)
        | some i ↦ complete_handshake a i (decode_response payload) now
      ]

  unfoldable pub on_session_tick : Adaptor → ℕ → Adaptor
  on_session_tick a now = record a { tlm = Tlm.evaluate_token_expiry a.tlm now }

  -- `IsSessionActive` may end an expired session, so it returns the adaptor too; `key_out` is as in
  -- `ValidateToken`.
  unfoldable pub is_session_active :
      Adaptor → ClientId → ℕ → Option SessionKey → AdaptorStatus × Option SessionKey × Adaptor
  is_session_active a client_id now key_out =
      if Tlm.is_locked_out a.tlm client_id
      then (AdaptorStatus.locked_out, key_out, a)
      else (let r = Tlm.validate_token a.tlm client_id now key_out in
          (
            if tlm_ok r.status
                then AdaptorStatus.ok
                else if is_tlm_locked_out r.status
                then AdaptorStatus.locked_out
                else AdaptorStatus.not_authenticated,
            r.key_out,
            record a { tlm = r.manager },
          ))

  -- `RevokeSession`, the part that touches the engine.
  unfoldable pub revoke_engine : Adaptor → ClientId → Adaptor
  revoke_engine a client_id = elim (find_slot a client_id) [
    | none ↦ a
    | some i ↦ put_engine a i (Engine.revoke (engine_at a i))
  ]

  unfoldable pub revoke_session : Adaptor → ClientId → Bool → AdaptorStatus × Adaptor
  revoke_session a client_id is_anomaly =
      let a' = revoke_engine a client_id in
      let (st, tlm) = Tlm.revoke_token a'.tlm client_id is_anomaly in
      (if tlm_ok st then AdaptorStatus.ok else AdaptorStatus.unknown_peer, record a' { tlm = tlm })

  unfoldable pub get_active_session_count : Adaptor → ℕ
  get_active_session_count a = Tlm.get_active_session_count a.tlm

  -- The private handler that nothing calls.
  unfoldable pub handle_revocation : Adaptor → ClientId → Adaptor
  handle_revocation a client_id = elim (find_slot a client_id) [
    | none ↦ a
    | some i ↦ record (put_engine a i (Engine.revoke (engine_at a i))) {
      slot_records =
          set a.slot_records i (record { client_id = zeros client_id_len; is_occupied = false });
    }
  ]
