-- ===== src/Adaptor/Hooks/Sessions.antt =====
-- The hooks that reach the session manager keep the adaptor's invariant.
use mathlib.Core.Path.{subst}
use zonal_zero_trust_auth.Base.{
  ℕ, ◌≤◌, ◌<◌, sym, List, Bool, true, Option, none, some, length, arith, Bool-cases, Option-cases,
  inl, inr, ltb,
}
use zonal_zero_trust_auth.Platform.{
  Bytes, ClientId, SessionKey, IsClientId, CryptoPlatform, client_id_len,
}
use zonal_zero_trust_auth.Engine
use zonal_zero_trust_auth.Engine.{
  KnownPeerEntry, SpdmAuthRequest, SpdmAuthResponse, SpdmProtocolEngine, SpdmSessionToken,
  SpdmStatus, Requested, Responded, spdm_auth_request_len, spdm_auth_response_len,
  process_auth_request, process_auth_response,
}
use zonal_zero_trust_auth.Tlm
use zonal_zero_trust_auth.Tlm.{TlmStatus, TokenLifecycleManager, Validated}
use zonal_zero_trust_auth.Tlm.Register.Outcome.{register_token-IsValid}
use zonal_zero_trust_auth.Tlm.Sessions.Valid.{validate_token-IsValid, revoke_token-IsValid}
use zonal_zero_trust_auth.Tlm.Expiry.{evaluate_token_expiry_lem}
use zonal_zero_trust_auth.Tlm.Slotwise.{
  register_token-Slotwise, validate_token-Slotwise, revoke_token-Slotwise,
  evaluate_token_expiry-Slotwise,
}
use zonal_zero_trust_auth.Adaptor.{
  Adaptor, max_zone_slots, empty_token, decode_response, spdm_ok, tlm_ok, engine_at, put_engine,
  find_slot, register_session, complete_handshake, on_auth_response, on_session_tick,
  is_session_active, revoke_engine, revoke_session,
}
use zonal_zero_trust_auth.Adaptor.Valid.{
  IsBacked, StaysBacked, StaysBacked-stable, StaysBacked-AllowsToken, StaysBacked-AllowsCount,
  response-LooksUp, revoke-LooksUp, put_engine-IsValid, put_tlm-IsValid, response-IsBacked,
}
use zonal_zero_trust_auth.Adaptor.Events.{IsPayload, head-IsClientId}
use zonal_zero_trust_auth.Adaptor.Hooks.Frames.{Ok, slot_bound, platform-IsValid, spdm_ok-ok}

module _ (p : CryptoPlatform) (table : Option (List KnownPeerEntry)) (count : ℕ) where
  -- A revocation, as the hooks call it.
  revoked-IsValid :
      (a : Adaptor p) (x : ClientId) (is_anomaly : Bool)
      → IsClientId x
      → Ok p table count a
      → Ok p table count (record a { tlm = (Tlm.revoke_token a.tlm x is_anomaly).1 })
  revoked-IsValid a x is_anomaly hx v =
      put_tlm-IsValid p table count a (Tlm.revoke_token a.tlm x is_anomaly).1 v
        (revoke_token-IsValid a.tlm v.manager x hx is_anomaly)
        (revoke_token-Slotwise (StaysBacked p table count) (StaysBacked-stable p table count) a.tlm
          v.manager x is_anomaly (StaysBacked-AllowsCount p table count x) hx)

  registered-IsValid :
      (a : Adaptor p) (i : ℕ) (token : SpdmSessionToken) (now : ℕ)
      → Ok p table count a
      → i < max_zone_slots
      → IsClientId token.client_id
      → IsBacked p table count token.client_id token.session_nonce token.session_key
      → Ok p table count (register_session p a i token now).1
  unfolding register_session
  registered-IsValid a i token now v h id b =
      let out = Tlm.register_token a.tlm token now in
      let w =
        put_tlm-IsValid p table count a out.1 v
          (register_token-IsValid token now id a.tlm v.manager)
          (register_token-Slotwise (StaysBacked p table count) (StaysBacked-stable p table count)
            token now (StaysBacked-AllowsToken p table count token now b) id a.tlm v.manager) in
      let a' = record a { tlm = out.1 } in
      elim (Bool-cases (tlm_ok out.0)) [
        | inl good ↦ rw good w
        | inr bad ↦ rw bad (
            put_engine-IsValid p table count a' i (Engine.revoke (engine_at p a' i)) w h
              (revoke-LooksUp p table count (engine_at p a' i) (w.lookups i h)))
      ]

  handshake-IsValid :
      (a : Adaptor p) (i : ℕ) (response : SpdmAuthResponse) (now : ℕ)
      → Ok p table count a
      → i < max_zone_slots
      → IsClientId response.client_id
      → Ok p table count (complete_handshake p a i response now).1
  unfolding complete_handshake
  handshake-IsValid a i response now v h id =
      let e = engine_at p a i in
      let out = process_auth_response p e response empty_token a.platform in
      let w = platform-IsValid p table count (put_engine p a i out.engine) out.platform (
        put_engine-IsValid p table count a i out.engine v h
          (response-LooksUp p table count e response empty_token a.platform (v.lookups i h))) in
      let a' = record (put_engine p a i out.engine) { platform = out.platform } in
      elim (Bool-cases (spdm_ok out.status)) [
        | inl good ↦
            let (same, b) =
              response-IsBacked p table count e response empty_token a.platform (v.lookups i h)
                (spdm_ok-ok p table count out.status good) in
            rw good (registered-IsValid a' i out.token now w h (subst IsClientId (sym same) id) b)
        | inr bad ↦ rw bad (revoked-IsValid a' response.client_id true id w)
      ]

  pub on_response-IsValid :
      (a : Adaptor p) (payload : Option Bytes) (now : ℕ)
      → IsPayload payload
      → Ok p table count a
      → Ok p table count (on_auth_response p a payload now).1
  unfolding on_auth_response
  on_response-IsValid a none now t v = v
  on_response-IsValid a (some payload) now t v =
      elim (Bool-cases (ltb (length payload) spdm_auth_response_len)) [
        | inl short ↦ rw short v
        | inr long ↦ elim (Option-cases (find_slot p a (decode_response payload).client_id)) [
          | inl e ↦ rw (long, e, on_auth_response) v
          | inr (i, e) ↦
              let room : client_id_len ≤ length payload = ground arith in
              rw (long, e, on_auth_response)
                (handshake-IsValid a i (decode_response payload) now v
                  (slot_bound p table count a (decode_response payload).client_id i v e)
                  (head-IsClientId payload room t))
        ]
      ]

  pub query-IsValid :
      (a : Adaptor p) (x : ClientId) (now : ℕ) (out : Option SessionKey)
      → IsClientId x
      → Ok p table count a
      → Ok p table count (is_session_active p a x now out).2
  unfolding is_session_active
  query-IsValid a x now out hx v = elim (Bool-cases (Tlm.is_locked_out a.tlm x)) [
    | inl l ↦ rw l v
    | inr o ↦ rw o (
        put_tlm-IsValid p table count a (Tlm.validate_token a.tlm x now out).manager v
          (validate_token-IsValid a.tlm v.manager x hx now out)
          (validate_token-Slotwise (StaysBacked p table count) (StaysBacked-stable p table count)
            a.tlm v.manager x now out hx))
  ]

  pub tick-IsValid :
      (a : Adaptor p) (now : ℕ) → Ok p table count a → Ok p table count (on_session_tick p a now)
  unfolding on_session_tick
  tick-IsValid a now v =
      put_tlm-IsValid p table count a (Tlm.evaluate_token_expiry a.tlm now) v
        (evaluate_token_expiry_lem now a.tlm v.manager).0
        (evaluate_token_expiry-Slotwise (StaysBacked p table count)
          (StaysBacked-stable p table count) a.tlm v.manager now)

  revoke_engine-IsValid :
      (a : Adaptor p) (x : ClientId) → Ok p table count a → Ok p table count (revoke_engine p a x)
  unfolding revoke_engine
  revoke_engine-IsValid a x v = elim (Option-cases (find_slot p a x)) [
    | inl e ↦ rw (e, revoke_engine) v
    | inr (i, e) ↦
        let h = slot_bound p table count a x i v e in
        rw (e, revoke_engine)
          (put_engine-IsValid p table count a i (Engine.revoke (engine_at p a i)) v h
            (revoke-LooksUp p table count (engine_at p a i) (v.lookups i h)))
  ]

  pub revoke_session-IsValid :
      (a : Adaptor p) (x : ClientId) (is_anomaly : Bool)
      → IsClientId x
      → Ok p table count a
      → Ok p table count (revoke_session p a x is_anomaly).1
  unfolding revoke_session
  revoke_session-IsValid a x is_anomaly hx v =
      revoked-IsValid (revoke_engine p a x) x is_anomaly hx (revoke_engine-IsValid a x v)
