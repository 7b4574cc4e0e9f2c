-- ===== src/Adaptor/Spec.antt =====
-- What the adaptor promises its host, with the pool, the table, its capacity and its order of eviction
-- forgotten: a list of sessions, one for each client, that the verdicts on responses, revocations and
-- time change.
pub mod Table
pub mod Answers
pub mod Refine
use zonal_zero_trust_auth.Base.{
  ℕ, List, [], ◌∷◌, ◌++◌, Bool, not, Option, none, some, length, ltb, if◌then◌else◌, keep_if,
}
use zonal_zero_trust_auth.Platform.{Bytes, ClientId, CryptoPlatform}
use zonal_zero_trust_auth.Engine.{SpdmSessionToken, Responded, spdm_auth_response_len}
use zonal_zero_trust_auth.Tlm
use zonal_zero_trust_auth.Tlm.Spec.{Session, drop_client, issued, is_old, validate}
use zonal_zero_trust_auth.Adaptor.{Adaptor, decode_response, spdm_ok, find_slot}
use zonal_zero_trust_auth.Adaptor.Events.{
  Event, offers, requests, responds, ticks, queries, revokes, step,
}
use zonal_zero_trust_auth.Adaptor.Response.{handled}

-- What can happen to the sessions.
pub data Effect : Type 0 where
  nothing : Effect
  opens : SpdmSessionToken → ℕ → Effect
  closes : ClientId → Effect
  asks : ClientId → ℕ → Effect
  expires : ℕ → Effect

-- A new session replaces the client's earlier one, and no other.
unfoldable pub apply : Effect → List Session → List Session
apply nothing l = l
apply (opens token now) l = drop_client token.client_id l ++ issued token now ∷ []
apply (closes x) l = drop_client x l
apply (asks x now) l = validate x now l
apply (expires now) l = keep_if (λ s. not (is_old now s)) l

unfoldable pub apply_all : List Effect → List Session → List Session
apply_all [] l = l
apply_all (f ∷ fs) l = apply_all fs (apply f l)

module _ (p : CryptoPlatform) where
  -- The effect of a response frame: a session opens if the engine of the client accepts and the client
  -- is not locked out, and closes if the engine does not accept.
  unfoldable pub verdict : Adaptor p → Option Bytes → ℕ → Effect
  verdict a none now = nothing
  verdict a (some payload) now =
      if ltb (length payload) spdm_auth_response_len
      then nothing
      else elim (find_slot p a (decode_response payload).client_id) [
        | none ↦ nothing
        | some i ↦
            let done = handled p a i (decode_response payload) in
            if spdm_ok done.status
            then if Tlm.is_locked_out a.tlm (decode_response payload).client_id
              then nothing
              else opens done.token now
            else closes (decode_response payload).client_id
      ]

  unfoldable pub effect : Adaptor p → Event → Effect
  effect a (offers x) = nothing
  effect a (requests payload) = nothing
  effect a (responds payload now) = verdict a payload now
  effect a (ticks now) = expires now
  effect a (queries x now out) = asks x now
  effect a (revokes x is_anomaly) = closes x

  -- The effects of a history.
  unfoldable pub effects : Adaptor p → List Event → List Effect
  effects a [] = []
  effects a (e ∷ es) = effect a e ∷ effects (step p a e) es
