-- ===== src/Tlm.antt =====
-- include/zzta/TokenLifecycleManager.hpp and src/TokenLifecycleManager.cpp: the table of sessions.
-- Time is a `uint64_t`, whose differences wrap. The revocation callback is foreign code that may not
-- call back into the manager; the model keeps the list of the identifiers that it was called with.
mod Data
pub mod Slots
pub mod Order
pub mod Invariant
pub mod Register
pub mod Sessions
pub mod Expiry
pub mod Slotwise
pub mod Lockout
pub mod Persistence
pub mod Counter
pub mod Barred
pub mod Revoke
pub mod History
pub mod Spec
use zonal_zero_trust_auth.Base.{
  ℕ, zero, suc, ◌+◌, ◌-◌, ◌%◌, ◌^◌, List, [], ◌∷◌, ◌++◌, Bool, true, false, not, ◌&&◌, Option, none,
  some, get_or, set, replicate, find_index, count_if, ltb, leb, if◌then◌else◌,
}
use zonal_zero_trust_auth.Platform.{
  Nonce, ClientId, SessionKey, zeros, nonce_len, client_id_len, session_key_len,
}
use zonal_zero_trust_auth.ConstantTime.{same_bytes, is_zero}
use zonal_zero_trust_auth.Engine.{SpdmSessionToken}
use zonal_zero_trust_auth.Ring
use zonal_zero_trust_auth.Ring.{StaticCircularBuffer}
pub use Data.{
  max_active_sessions, token_lifetime_ms, max_anomaly_count, TlmStatus, TokenSlot,
  TokenLifecycleManager, empty_slot,
}

unfoldable pub construct : Bool → TokenLifecycleManager
construct has_callback = record {
  session_table = replicate max_active_sessions empty_slot;
  insertion_order = Ring.empty max_active_sessions;
  has_callback = has_callback;
  notified = [];
}

-- `session_table_[i]`, read and written.
abbrev pub slot_at : TokenLifecycleManager → ℕ → TokenSlot
slot_at m i = get_or m.session_table i empty_slot

abbrev pub put_slot : TokenLifecycleManager → ℕ → TokenSlot → TokenLifecycleManager
put_slot m i slot = record m { session_table = set m.session_table i slot }

abbrev pub has_id : ClientId → TokenSlot → Bool
has_id client_id slot = same_bytes client_id slot.client_id

abbrev pub is_free : TokenSlot → Bool
is_free slot = not slot.is_active && not slot.is_locked_out

-- `none` is the result `false`, which leaves the out parameter alone.
unfoldable pub find_slot_by_client_id : TokenLifecycleManager → ClientId → Option ℕ
find_slot_by_client_id m client_id = find_index (has_id client_id) m.session_table

unfoldable pub find_free_slot : TokenLifecycleManager → Option ℕ
find_free_slot m = find_index is_free m.session_table

unfoldable pub zero_slot_secrets : TokenLifecycleManager → ℕ → TokenLifecycleManager
zero_slot_secrets m idx = put_slot m idx (record (slot_at m idx) {
  session_key = zeros session_key_len;
  session_nonce = zeros nonce_len;
  issued_at_ms = 0;
  last_seen_ms = 0;
})

-- `session_table_[idx].is_active = false;`
unfoldable pub set_inactive : TokenLifecycleManager → ℕ → TokenLifecycleManager
set_inactive m idx = put_slot m idx (record (slot_at m idx) { is_active = false })

-- `insertion_order_.Remove(idx);`
unfoldable pub forget_order : TokenLifecycleManager → ℕ → TokenLifecycleManager
forget_order m idx = record m {
  insertion_order = Ring.remove max_active_sessions m.insertion_order idx;
}

unfoldable pub notify_revocation : TokenLifecycleManager → ClientId → TokenLifecycleManager
notify_revocation m client_id =
    if m.has_callback then record m { notified = m.notified ++ client_id ∷ [] } else m

unfoldable pub is_locked_out : TokenLifecycleManager → ClientId → Bool
is_locked_out m client_id = elim (find_slot_by_client_id m client_id) [
  | none ↦ false
  | some idx ↦ (slot_at m idx).is_locked_out
]

unfoldable pub get_active_session_count : TokenLifecycleManager → ℕ
get_active_session_count m = count_if (λ slot. slot.is_active) m.session_table

-- The four statements that end a session, in the order of the code.
unfoldable pub end_session : TokenLifecycleManager → ℕ → ClientId → TokenLifecycleManager
end_session m idx client_id =
    notify_revocation (forget_order (set_inactive (zero_slot_secrets m idx) idx) idx) client_id

-- `RegisterToken`, the refresh path.
unfoldable pub expire_existing : TokenLifecycleManager → ClientId → TokenLifecycleManager
expire_existing m client_id = elim (find_slot_by_client_id m client_id) [
  | none ↦ m
  | some idx ↦ if (slot_at m idx).is_active then end_session m idx client_id else m
]

-- `RegisterToken`, after the oldest index was popped: here the callback comes before the flag.
unfoldable pub evict : TokenLifecycleManager → ℕ → TokenLifecycleManager
evict m idx =
    let zeroed = zero_slot_secrets m idx in
    set_inactive (notify_revocation zeroed (slot_at zeroed idx).client_id) idx

-- The counter of anomalies and the lockout flag are not written.
abbrev pub admitted_slot : TokenSlot → SpdmSessionToken → ℕ → TokenSlot
admitted_slot slot token now = record slot {
  client_id = token.client_id;
  session_key = token.session_key;
  session_nonce = token.session_nonce;
  issued_at_ms = now;
  last_seen_ms = now;
  is_active = true;
}

-- `RegisterToken`, from "Populate new slot" on; the result of `Push` is dropped.
unfoldable pub admit : TokenLifecycleManager → ℕ → SpdmSessionToken → ℕ → TokenLifecycleManager
admit m idx token now = record (put_slot m idx (admitted_slot (slot_at m idx) token now)) {
  insertion_order = (Ring.push max_active_sessions m.insertion_order idx).1;
}

-- `RegisterToken`, from "Locate a free slot" on.
unfoldable pub place :
    TokenLifecycleManager → SpdmSessionToken → ℕ → TlmStatus × TokenLifecycleManager
place m token now = elim (find_free_slot m) [
  | some idx ↦ (TlmStatus.ok, admit m idx token now)
  | none ↦
      let (out, order) = Ring.pop max_active_sessions m.insertion_order in
      elim out [
        | none ↦ (TlmStatus.table_full, record m { insertion_order = order })
        | some idx ↦
            (TlmStatus.ok, admit (evict (record m { insertion_order = order }) idx) idx token now)
      ]
]

unfoldable pub register_token :
    TokenLifecycleManager → SpdmSessionToken → ℕ → TlmStatus × TokenLifecycleManager
register_token m token now =
    if is_zero token.client_id
    then (TlmStatus.invalid_param, m)
    else if is_locked_out m token.client_id
    then (TlmStatus.locked_out, m)
    else place (expire_existing m token.client_id) token now

-- `uint64_t age_ms{current_time_ms - slot.issued_at_ms}`
abbrev pub age_ms : ℕ → ℕ → ℕ
age_ms now issued = (now + 2 ^ 64 - issued) % 2 ^ 64

abbrev pub is_expired : ℕ → TokenSlot → Bool
is_expired now slot = ltb token_lifetime_ms (age_ms now slot.issued_at_ms)

-- `key_out` is `none` for `nullptr`, and otherwise what the pointer's target holds.
abbrev pub copy_out : Option SessionKey → SessionKey → Option SessionKey
copy_out none key = none
copy_out (some old) key = some key

-- What `ValidateToken` leaves behind.
pub record Validated : Type 0 where
  pub status : TlmStatus
  pub key_out : Option SessionKey
  pub manager : TokenLifecycleManager

-- `ValidateToken`, once the slot is found.
unfoldable pub validate_slot :
    TokenLifecycleManager → ℕ → ClientId → ℕ → Option SessionKey → Validated
validate_slot m idx client_id now key_out =
    let slot = slot_at m idx in
    if not slot.is_active
    then record { status = TlmStatus.not_found; key_out = key_out; manager = m }
    else if is_expired now slot
    then record {
      status = TlmStatus.not_found;
      key_out = key_out;
      manager = end_session m idx client_id;
    }
    else record {
      status = TlmStatus.ok;
      key_out = copy_out key_out slot.session_key;
      manager = put_slot m idx (record slot { last_seen_ms = now });
    }

unfoldable pub validate_token : TokenLifecycleManager → ClientId → ℕ → Option SessionKey → Validated
validate_token m client_id now key_out =
    if is_locked_out m client_id
    then record { status = TlmStatus.locked_out; key_out = key_out; manager = m }
    else elim (find_slot_by_client_id m client_id) [
      | none ↦ record { status = TlmStatus.not_found; key_out = key_out; manager = m }
      | some idx ↦ validate_slot m idx client_id now key_out
    ]

-- `RevokeToken`, the anomaly counter; it saturates at 0xFF.
unfoldable pub count_anomaly : TokenSlot → Bool → TokenSlot
count_anomaly slot is_anomaly =
    if is_anomaly && ltb slot.anomaly_count 0xff
    then (let counted = slot.anomaly_count + 1 in
        if leb max_anomaly_count counted
        then record slot { anomaly_count = counted; is_locked_out = true }
        else record slot { anomaly_count = counted })
    else slot

unfoldable pub revoke_token :
    TokenLifecycleManager → ClientId → Bool → TlmStatus × TokenLifecycleManager
revoke_token m client_id is_anomaly = elim (find_slot_by_client_id m client_id) [
  | none ↦ (TlmStatus.not_found, m)
  | some idx ↦
      let counted = put_slot m idx (count_anomaly (slot_at m idx) is_anomaly) in
      (TlmStatus.ok, end_session counted idx client_id)
]

-- One round of the loop in `EvaluateTokenExpiry`; the identifier is captured before the slot is zeroed.
unfoldable pub expiry_round : ℕ → ℕ → TokenLifecycleManager → TokenLifecycleManager
expiry_round now i m =
    let slot = slot_at m i in
    if not slot.is_active
    then m
    else if is_expired now slot
    then end_session m i slot.client_id
    else m

-- The manager after the given number of rounds.
unfoldable pub expiry_rounds : ℕ → TokenLifecycleManager → ℕ → TokenLifecycleManager
expiry_rounds now m zero = m
expiry_rounds now m (suc i) = expiry_round now i (expiry_rounds now m i)

unfoldable pub evaluate_token_expiry : TokenLifecycleManager → ℕ → TokenLifecycleManager
evaluate_token_expiry m now = expiry_rounds now m max_active_sessions
