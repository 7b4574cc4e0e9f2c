-- ===== src/Adaptor/Events.antt =====
-- The calls of the SOME/IP stack as events, and histories of them.
use zonal_zero_trust_auth.Base.{
  All-take, ℕ, ◌≤◌, ◌<◌, List, [], ◌∷◌, Bool, Option, none, some, All, length, take, length-take,
}
use zonal_zero_trust_auth.Platform.{
  Bytes, ClientId, SessionKey, IsClientId, CryptoPlatform, client_id_len,
}
use zonal_zero_trust_auth.Adaptor.{
  Adaptor, on_peer_offered, on_auth_request, on_auth_response, on_session_tick, is_session_active,
  revoke_session,
}

-- The identifier at the head of a long enough payload of bytes.
pub head-IsClientId :
    (payload : Bytes)
    → client_id_len ≤ length payload
    → All (λ b. b < 256) payload
    → IsClientId (take client_id_len payload)
head-IsClientId payload h b =
    (length-take client_id_len payload h, All-take (λ c. c < 256) client_id_len payload b)

-- The calls of the SOME/IP stack, with their arguments.
pub data Event : Type 0 where
  offers : ClientId → Event
  requests : Option Bytes → Event
  responds : Option Bytes → ℕ → Event
  ticks : ℕ → Event
  queries : ClientId → ℕ → Option SessionKey → Event
  revokes : ClientId → Bool → Event

abbrev pub IsPayload : Option Bytes → Type 0
IsPayload none = Unit
IsPayload (some payload) = All (λ b. b < 256) payload

-- Identifiers are arrays of eight bytes, and payloads consist of bytes.
abbrev pub IsTyped : Event → Type 0
IsTyped (offers x) = IsClientId x
IsTyped (requests payload) = IsPayload payload
IsTyped (responds payload now) = IsPayload payload
IsTyped (ticks now) = Unit
IsTyped (queries x now out) = IsClientId x
IsTyped (revokes x is_anomaly) = IsClientId x

abbrev pub AllTyped : List Event → Type 0
AllTyped [] = Unit
AllTyped (e ∷ es) = IsTyped e × AllTyped es

module _ (p : CryptoPlatform) where
  unfoldable pub step : Adaptor p → Event → Adaptor p
  step a (offers x) = (on_peer_offered p a x).1
  step a (requests payload) = (on_auth_request p a payload).1
  step a (responds payload now) = (on_auth_response p a payload now).1
  step a (ticks now) = on_session_tick p a now
  step a (queries x now out) = (is_session_active p a x now out).2
  step a (revokes x is_anomaly) = (revoke_session p a x is_anomaly).1

  unfoldable pub run : Adaptor p → List Event → Adaptor p
  run a [] = a
  run a (e ∷ es) = run (step a e) es
