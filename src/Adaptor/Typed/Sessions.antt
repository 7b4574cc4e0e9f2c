-- ===== src/Adaptor/Typed/Sessions.antt =====
-- The hooks that reach the session manager keep the sizes of all arrays.
use zonal_zero_trust_auth.Base.{
  ℕ, ◌≤◌, ◌<◌, Bool, true, Option, none, some, length, ltb, arith, Bool-cases, Option-cases, inl,
  inr,
}
use zonal_zero_trust_auth.Platform.{
  Bytes, ClientId, SessionKey, IsClientId, CryptoPlatform, client_id_len,
}
use zonal_zero_trust_auth.Engine
use zonal_zero_trust_auth.Engine.{
  KnownPeerEntry, SpdmProtocolEngine, SpdmAuthRequest, SpdmAuthResponse, SpdmSessionToken,
  spdm_auth_request_len, spdm_auth_response_len, process_auth_request, process_auth_response,
}
use zonal_zero_trust_auth.Engine.Typed.{FillsArrays, IsToken, response-IsTyped, response-IsToken}
use zonal_zero_trust_auth.Tlm
use zonal_zero_trust_auth.Tlm.Register.Outcome.{register_token-IsValid}
use zonal_zero_trust_auth.Tlm.Sessions.Valid.{validate_token-IsValid, revoke_token-IsValid}
use zonal_zero_trust_auth.Tlm.Expiry.{evaluate_token_expiry_lem}
use zonal_zero_trust_auth.Tlm.Slotwise.{
  register_token-Slotwise, validate_token-Slotwise, revoke_token-Slotwise,
  evaluate_token_expiry-Slotwise,
}
use zonal_zero_trust_auth.Adaptor.{
  Adaptor, max_zone_slots, empty_token, decode_response, spdm_ok, tlm_ok, engine_at, put_engine,
  find_slot, register_session, complete_handshake, on_auth_response, on_session_tick,
  is_session_active, revoke_engine, revoke_session,
}
use zonal_zero_trust_auth.Adaptor.Events.{IsPayload, head-IsClientId}
use zonal_zero_trust_auth.Adaptor.Hooks.{spdm_ok-ok}
use zonal_zero_trust_auth.Adaptor.Typed.{
  IsTyped, StaysSlot, StaysSlot-stable, StaysSlot-AllowsCount, StaysSlot-AllowsToken,
  put_engine-IsTyped, put_tlm-IsTyped, platform-IsTyped,
}
use zonal_zero_trust_auth.Adaptor.Typed.Slots.{slot_in, revoke_slot}

module _ (p : CryptoPlatform) (fills : FillsArrays p) where
  revoked-IsTyped :
      (a : Adaptor p) (x : ClientId) (is_anomaly : Bool)
      → IsClientId x
      → IsTyped p a
      → IsTyped p (record a { tlm = (Tlm.revoke_token a.tlm x is_anomaly).1 })
  revoked-IsTyped a x is_anomaly hx t =
      put_tlm-IsTyped p a (Tlm.revoke_token a.tlm x is_anomaly).1 t
        (revoke_token-IsValid a.tlm t.manager x hx is_anomaly)
        (revoke_token-Slotwise StaysSlot StaysSlot-stable a.tlm t.manager x is_anomaly
          (StaysSlot-AllowsCount x) hx)

  registered-IsTyped :
      (a : Adaptor p) (i : ℕ) (token : SpdmSessionToken) (now : ℕ)
      → IsTyped p a
      → i < max_zone_slots
      → IsToken token
      → IsTyped p (register_session p a i token now).1
  unfolding register_session
  registered-IsTyped a i token now t h k =
      let out = Tlm.register_token a.tlm token now in
      let w =
        put_tlm-IsTyped p a out.1 t (register_token-IsValid token now k.client_id a.tlm t.manager) (
          register_token-Slotwise StaysSlot StaysSlot-stable token now
            (StaysSlot-AllowsToken token now k) k.client_id a.tlm t.manager) in
      elim (Bool-cases (tlm_ok out.0)) [
        | inl good ↦ rw good w
        | inr bad ↦ rw bad (revoke_slot p (record a { tlm = out.1 }) i w h)
      ]

  handshake-IsTyped :
      (a : Adaptor p) (i : ℕ) (response : SpdmAuthResponse) (now : ℕ)
      → IsTyped p a
      → i < max_zone_slots
      → IsClientId response.client_id
      → IsTyped p (complete_handshake p a i response now).1
  unfolding complete_handshake
  handshake-IsTyped a i response now t h id =
      let e = engine_at p a i in
      let out = process_auth_response p e response empty_token a.platform in
      let a' = record (put_engine p a i out.engine) { platform = out.platform } in
      let w : IsTyped p a' = platform-IsTyped p (put_engine p a i out.engine) out.platform (
        put_engine-IsTyped p a i out.engine t h
          (response-IsTyped p fills e response empty_token a.platform id (t.engines i h))) in
      elim (Bool-cases (spdm_ok out.status)) [
        | inl good ↦ rw good (
            registered-IsTyped a' i out.token now w h (
              response-IsToken p fills e response empty_token a.platform id (t.engines i h)
                (spdm_ok-ok p a.peer_table a.peer_count out.status good)))
        | inr bad ↦ rw bad (revoked-IsTyped a' response.client_id true id w)
      ]

  pub response_hook-IsTyped :
      (a : Adaptor p) (payload : Option Bytes) (now : ℕ)
      → IsPayload payload
      → IsTyped p a
      → IsTyped p (on_auth_response p a payload now).1
  unfolding on_auth_response
  response_hook-IsTyped a none now b t = t
  response_hook-IsTyped a (some payload) now b t =
      let x = (decode_response payload).client_id in
      elim (Bool-cases (ltb (length payload) spdm_auth_response_len)) [
        | inl short ↦ rw short t
        | inr long ↦ elim (Option-cases (find_slot p a x)) [
          | inl e ↦ rw (long, e, on_auth_response) t
          | inr (i, e) ↦
              let room : client_id_len ≤ length payload = ground arith in
              rw (long, e, on_auth_response)
                (handshake-IsTyped a i (decode_response payload) now t (slot_in p a x i t e)
                  (head-IsClientId payload room b))
        ]
      ]

  pub query-IsTyped :
      (a : Adaptor p) (x : ClientId) (now : ℕ) (out : Option SessionKey)
      → IsClientId x
      → IsTyped p a
      → IsTyped p (is_session_active p a x now out).2
  unfolding is_session_active
  query-IsTyped a x now out hx t = elim (Bool-cases (Tlm.is_locked_out a.tlm x)) [
    | inl l ↦ rw l t
    | inr o ↦ rw o (
        put_tlm-IsTyped p a (Tlm.validate_token a.tlm x now out).manager t
          (validate_token-IsValid a.tlm t.manager x hx now out)
          (validate_token-Slotwise StaysSlot StaysSlot-stable a.tlm t.manager x now out hx))
  ]

  pub tick-IsTyped : (a : Adaptor p) (now : ℕ) → IsTyped p a → IsTyped p (on_session_tick p a now)
  unfolding on_session_tick
  tick-IsTyped a now t =
      put_tlm-IsTyped p a (Tlm.evaluate_token_expiry a.tlm now) t
        (evaluate_token_expiry_lem now a.tlm t.manager).0
        (evaluate_token_expiry-Slotwise StaysSlot StaysSlot-stable a.tlm t.manager now)

  pub revoke_hook-IsTyped :
      (a : Adaptor p) (x : ClientId) (is_anomaly : Bool)
      → IsClientId x
      → IsTyped p a
      → IsTyped p (revoke_session p a x is_anomaly).1
  unfolding revoke_session revoke_engine
  revoke_hook-IsTyped a x is_anomaly hx t = elim (Option-cases (find_slot p a x)) [
    | inl e ↦ rw (e, revoke_engine) (revoked-IsTyped a x is_anomaly hx t)
    | inr (i, e) ↦
        rw (e, revoke_engine)
          (revoked-IsTyped (put_engine p a i (Engine.revoke (engine_at p a i))) x is_anomaly hx
            (revoke_slot p a i t (slot_in p a x i t e)))
  ]
