-- ===== src/Tlm/Data.antt =====
-- include/zzta/TokenLifecycleManager.hpp: the constants, the status codes, the slots and the manager.
use zonal_zero_trust_auth.Base.{ℕ, List, Bool, false}
use zonal_zero_trust_auth.Platform.{
  Nonce, ClientId, SessionKey, zeros, nonce_len, client_id_len, session_key_len,
}
use zonal_zero_trust_auth.Ring.{StaticCircularBuffer}

abbrev pub max_active_sessions : ℕ
max_active_sessions = 8

abbrev pub token_lifetime_ms : ℕ
token_lifetime_ms = 30_000

abbrev pub max_anomaly_count : ℕ
max_anomaly_count = 3

pub data TlmStatus : Type 0 where
  ok table_full not_found already_exists locked_out invalid_param : TlmStatus

-- The padding bytes `reserved_`, which nothing reads, are left out.
pub record TokenSlot : Type 0 where
  pub client_id : ClientId
  pub session_key : SessionKey
  pub session_nonce : Nonce
  pub issued_at_ms : ℕ
  pub last_seen_ms : ℕ
  pub anomaly_count : ℕ
  pub is_active : Bool
  pub is_locked_out : Bool

-- `has_callback` tells whether `on_revoke_cb_` is not null; `notified` lists its calls, oldest first.
pub record TokenLifecycleManager : Type 0 where
  pub session_table : List TokenSlot
  pub insertion_order : StaticCircularBuffer
  pub has_callback : Bool
  pub notified : List ClientId

abbrev pub empty_slot : TokenSlot
empty_slot = record {
  client_id = zeros client_id_len;
  session_key = zeros session_key_len;
  session_nonce = zeros nonce_len;
  issued_at_ms = 0;
  last_seen_ms = 0;
  anomaly_count = 0;
  is_active = false;
  is_locked_out = false;
}
