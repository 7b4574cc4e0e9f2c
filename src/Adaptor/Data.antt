-- ===== src/Adaptor/Data.antt =====
-- include/zzta/SomeIpAdaptor.hpp: the constants, the status codes, the records of the adaptor, and the
-- layouts of its frames.
use zonal_zero_trust_auth.Base.{ℕ, List, Bool, true, false, not, ◌&&◌, leb, Option, take, drop}
use zonal_zero_trust_auth.Platform.{
  Bytes, ClientId, zeros, client_id_len, nonce_len, session_key_len, ecc_signature_len,
}
use zonal_zero_trust_auth.ConstantTime.{same_bytes}
use zonal_zero_trust_auth.Engine.{
  max_known_peers, KnownPeerEntry, SpdmAuthRequest, SpdmAuthResponse, SpdmProtocolEngine,
  SpdmSessionToken, SpdmStatus,
}
use zonal_zero_trust_auth.Version.{version_word}
use zonal_zero_trust_auth.Tlm.{TlmStatus, TokenLifecycleManager, max_active_sessions}

abbrev pub max_zone_slots : ℕ
max_zone_slots = 8

-- The static assertions on it: the pool is no larger than the session table and the peer table.
abbrev pub pool_fits : Bool
pool_fits = leb max_zone_slots max_active_sessions && leb max_zone_slots max_known_peers

abbrev pub some_ip_method_id_auth_request : ℕ
some_ip_method_id_auth_request = 0x0001

abbrev pub some_ip_method_id_auth_response : ℕ
some_ip_method_id_auth_response = 0x0003

abbrev pub some_ip_method_id_challenge : ℕ
some_ip_method_id_challenge = 0x0002

abbrev pub some_ip_zzta_service_id : ℕ
some_ip_zzta_service_id = 0xf0ca

abbrev pub some_ip_zzta_instance_id : ℕ
some_ip_zzta_instance_id = 0x0001

pub data AdaptorStatus : Type 0 where
  ok unknown_peer slot_exhausted protocol_error session_error invalid_frame not_authenticated
        locked_out invalid_param :
      AdaptorStatus

abbrev pub get_version_word : ℕ
get_version_word = version_word

pub record ZoneSlotRecord : Type 0 where
  pub client_id : ClientId
  pub is_occupied : Bool

-- The arguments of one call of the transmit callback.
pub record Frame : Type 0 where
  pub client_id : ClientId
  pub method_id : ℕ
  pub payload : Bytes

-- `has_transmit` tells whether `on_transmit_` is not null; `transmitted` lists its calls, oldest first.
pub record SomeIpAdaptor (S : Type 0) : Type 0 where
  pub engines : List SpdmProtocolEngine
  pub slot_records : List ZoneSlotRecord
  pub tlm : TokenLifecycleManager
  pub has_transmit : Bool
  pub transmitted : List Frame
  pub peer_table : Option (List KnownPeerEntry)
  pub peer_count : ℕ
  pub platform : S

abbrev pub empty_record : ZoneSlotRecord
empty_record = record { client_id = zeros client_id_len; is_occupied = false }

abbrev pub empty_token : SpdmSessionToken
empty_token = record {
  client_id = zeros client_id_len;
  session_nonce = zeros nonce_len;
  session_key = zeros session_key_len;
}

-- `OnPeerOffered` binds a slot to a peer; the other hooks look for the slot that is bound.
abbrev pub is_bound : ClientId → ZoneSlotRecord → Bool
is_bound client_id slot = slot.is_occupied && same_bytes client_id slot.client_id

abbrev pub is_unoccupied : ZoneSlotRecord → Bool
is_unoccupied slot = not slot.is_occupied

-- `std::memcpy` of the payload's first bytes into the frame types.
abbrev pub decode_request : Bytes → SpdmAuthRequest
decode_request payload = record {
  client_id = take client_id_len payload;
  version = take 4 (drop client_id_len payload);
}

abbrev pub decode_response : Bytes → SpdmAuthResponse
decode_response payload = record {
  client_id = take client_id_len payload;
  signature = take ecc_signature_len (drop client_id_len payload);
}

abbrev pub spdm_ok : SpdmStatus → Bool
spdm_ok SpdmStatus.ok = true
spdm_ok _ = false

abbrev pub tlm_ok : TlmStatus → Bool
tlm_ok TlmStatus.ok = true
tlm_ok _ = false

abbrev pub is_tlm_locked_out : TlmStatus → Bool
is_tlm_locked_out TlmStatus.locked_out = true
is_tlm_locked_out _ = false
