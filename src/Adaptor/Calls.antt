-- ===== src/Adaptor/Calls.antt =====
-- What each hook call does to the session manager: nothing, or one call of it.
use mathlib.Core.Path.{subst}
use zonal_zero_trust_auth.Base.{
  ℕ, ◌≡◌, ◌≤◌, refl, sym, ap, ◌∙◌, List, Bool, true, Option, none, some, length, ltb, if◌then◌else◌,
  arith, Bool-cases, Option-cases, inl, inr,
}
use zonal_zero_trust_auth.Platform.{
  Bytes, ClientId, SessionKey, IsClientId, CryptoPlatform, client_id_len,
}
use zonal_zero_trust_auth.Engine.{
  KnownPeerEntry, SpdmAuthResponse, SpdmSessionToken, process_auth_response, spdm_auth_response_len,
}
use zonal_zero_trust_auth.Tlm
use zonal_zero_trust_auth.Tlm.{TokenLifecycleManager}
use zonal_zero_trust_auth.Adaptor.{
  Adaptor, empty_token, spdm_ok, decode_response, engine_at, find_slot, on_peer_offered,
  on_auth_request, forward_request, transmit_challenge, on_auth_response, complete_handshake,
  register_session, on_session_tick, is_session_active,
}
use zonal_zero_trust_auth.Adaptor.Valid.{IsValid, response-IsBacked}
use zonal_zero_trust_auth.Adaptor.Events.{
  Event, offers, requests, responds, ticks, queries, revokes, IsTyped, IsPayload, step,
  head-IsClientId,
}
use zonal_zero_trust_auth.Adaptor.Hooks.{slot_bound, spdm_ok-ok}
use zonal_zero_trust_auth.Adaptor.Gate.{revoke_session-tlm}

module _ (p : CryptoPlatform) where
  pub offer-tlm : (a : Adaptor p) (x : ClientId) → (on_peer_offered p a x).1.tlm ≡ a.tlm
  unfolding on_peer_offered
  offer-tlm a x = ground arith

  pub request-tlm :
      (a : Adaptor p) (payload : Option Bytes) → (on_auth_request p a payload).1.tlm ≡ a.tlm
  unfolding on_auth_request forward_request transmit_challenge
  request-tlm a none = refl
  request-tlm a (some payload) = ground arith

  pub query-tlm :
      (a : Adaptor p) (x : ClientId) (now : ℕ) (out : Option SessionKey)
      → (is_session_active p a x now out).2.tlm ≡ (
          if Tlm.is_locked_out a.tlm x then a.tlm else (Tlm.validate_token a.tlm x now out).manager)
  unfolding is_session_active
  query-tlm a x now out = ground arith

  session-tlm :
      (a : Adaptor p) (i : ℕ) (token : SpdmSessionToken) (now : ℕ)
      → (register_session p a i token now).1.tlm ≡ (Tlm.register_token a.tlm token now).1
  unfolding register_session
  session-tlm a i token now = ground arith

  pub handshake-tlm :
      (a : Adaptor p) (i : ℕ) (response : SpdmAuthResponse) (now : ℕ)
      → let out = process_auth_response p (engine_at p a i) response empty_token a.platform in
        (complete_handshake p a i response now).1.tlm ≡ (
          if spdm_ok out.status
          then (Tlm.register_token a.tlm out.token now).1
          else (Tlm.revoke_token a.tlm response.client_id true).1)
  unfolding complete_handshake register_session
  handshake-tlm a i response now = ground arith

  -- A slot of the pool is bound to the client.
  abbrev pub IsHoused : Adaptor p → ClientId → Type 0
  IsHoused a x = (i : ℕ) × (find_slot p a x ≡ some i)

-- The client whose response an event delivers.
abbrev pub responder : Event → Option ClientId
responder (responds (some payload) now) = some (decode_response payload).client_id
responder _ = none

module _ {ℓ} (p : CryptoPlatform) (table : Option (List KnownPeerEntry)) (count : ℕ)
    (P : TokenLifecycleManager → Type ℓ) where
  -- A response reaches the manager with a token of the responding client, or as an anomaly of it.
  abbrev pub Registers : Adaptor p → Option ClientId → Type ℓ
  Registers a who =
      (token : SpdmSessionToken) (now : ℕ)
      → IsClientId token.client_id
      → who ≡ some token.client_id
      → IsHoused p a token.client_id
      → P (Tlm.register_token a.tlm token now).1

  abbrev pub Counts : Adaptor p → Option ClientId → Type ℓ
  Counts a who =
      (x : ClientId)
      → IsClientId x
      → who ≡ some x
      → IsHoused p a x
      → P (Tlm.revoke_token a.tlm x true).1

  handshake_cases :
      (a : Adaptor p) (i : ℕ) (response : SpdmAuthResponse) (now : ℕ)
      → IsValid p table count a
      → find_slot p a response.client_id ≡ some i
      → IsClientId response.client_id
      → Registers a (some response.client_id)
      → Counts a (some response.client_id)
      → P (complete_handshake p a i response now).1.tlm
  handshake_cases a i response now v e id registers counts =
      let x = response.client_id in
      let h = slot_bound p table count a x i v e in
      let out = process_auth_response p (engine_at p a i) response empty_token a.platform in
      subst P (sym (handshake-tlm p a i response now)) (elim (Bool-cases (spdm_ok out.status)) [
        | inl good ↦
            let (same, _) =
              response-IsBacked p table count (engine_at p a i) response empty_token a.platform
                (v.lookups i h) (spdm_ok-ok p table count out.status good) in
            rw good (
              registers out.token now (subst IsClientId (sym same) id) (ap some (sym same))
                (i, ap (find_slot p a) same ∙ e))
        | inr bad ↦ rw bad (counts x id refl (i, e))
      ])

  response_cases :
      (a : Adaptor p) (payload : Option Bytes) (now : ℕ)
      → IsPayload payload
      → IsValid p table count a
      → P a.tlm
      → Registers a (responder (responds payload now))
      → Counts a (responder (responds payload now))
      → P (on_auth_response p a payload now).1.tlm
  unfolding on_auth_response
  response_cases a none now t v same registers counts = same
  response_cases a (some payload) now t v same registers counts =
      elim (Bool-cases (ltb (length payload) spdm_auth_response_len)) [
        | inl short ↦ rw short same
        | inr long ↦ elim (Option-cases (find_slot p a (decode_response payload).client_id)) [
          | inl e ↦ rw (long, e, on_auth_response) same
          | inr (i, e) ↦
              let room : client_id_len ≤ length payload = ground arith in
              rw (long, e, on_auth_response)
                (handshake_cases a i (decode_response payload) now v e
                  (head-IsClientId payload room t) registers counts)
        ]
      ]

  query_cases :
      (a : Adaptor p) (x : ClientId) (now : ℕ) (out : Option SessionKey)
      → P a.tlm
      → P (Tlm.validate_token a.tlm x now out).manager
      → P (is_session_active p a x now out).2.tlm
  query_cases a x now out same asked =
      subst P (sym (query-tlm p a x now out))
        (elim (Bool-cases (Tlm.is_locked_out a.tlm x)) [ inl l ↦ rw l same | inr o ↦ rw o asked ])

  -- What an event does to the session manager, by cases.
  pub step_cases :
      (a : Adaptor p) (e : Event)
      → IsTyped e
      → IsValid p table count a
      → P a.tlm
      → Registers a (responder e)
      → Counts a (responder e)
      → ((x : ClientId) (is_anomaly : Bool)
          → IsClientId x
          → e ≡ revokes x is_anomaly
          → P (Tlm.revoke_token a.tlm x is_anomaly).1)
      → ((now : ℕ) → e ≡ ticks now → P (Tlm.evaluate_token_expiry a.tlm now))
      → ((x : ClientId) (now : ℕ) (out : Option SessionKey)
          → IsClientId x
          → e ≡ queries x now out
          → P (Tlm.validate_token a.tlm x now out).manager)
      → P (step p a e).tlm
  unfolding step on_session_tick
  step_cases a (offers x) t v same reg cnt rev tick ask = subst P (sym (offer-tlm p a x)) same
  step_cases a (requests payload) t v same reg cnt rev tick ask =
      subst P (sym (request-tlm p a payload)) same
  step_cases a (responds payload now) t v same reg cnt rev tick ask =
      response_cases a payload now t v same reg cnt
  step_cases a (ticks now) t v same reg cnt rev tick ask = tick now refl
  step_cases a (queries x now out) t v same reg cnt rev tick ask =
      query_cases a x now out same (ask x now out t refl)
  step_cases a (revokes x is_anomaly) t v same reg cnt rev tick ask =
      subst P (sym (revoke_session-tlm p a x is_anomaly)) (rev x is_anomaly t refl)
