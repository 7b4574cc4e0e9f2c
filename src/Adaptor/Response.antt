-- ===== src/Adaptor/Response.antt =====
-- `OnAuthResponse`: its five answers, each with its condition and what it leaves behind.
mod Anomaly
use mathlib.Core.Path.{subst}
use zonal_zero_trust_auth.Base.{
  ℕ, ◌+◌, leb, ◌==◌, ==_iff, if◌then◌else◌, ◌≤◌, ◌<◌, ◌≡◌, ◌≢◌, ◌⊎◌, refl, sym, ap, ◌∙◌, List, true,
  false, Option, none, some, length, ltb, arith, Bool-cases, Option-cases, inl, inr, length-set,
}
use zonal_zero_trust_auth.Platform.{Bytes, ClientId, IsClientId, CryptoPlatform, client_id_len}
use zonal_zero_trust_auth.ConstantTime.{is_zero}
use zonal_zero_trust_auth.Engine
use zonal_zero_trust_auth.Engine.{
  KnownPeerEntry, SpdmProtocolEngine, SpdmAuthResponse, SpdmSessionToken, SpdmStatus, Responded,
  process_auth_response, spdm_auth_response_len,
}
use zonal_zero_trust_auth.Tlm
use zonal_zero_trust_auth.Tlm.{
  TlmStatus, TokenSlot, TokenLifecycleManager, max_anomaly_count, slot_at, is_locked_out,
  count_anomaly, find_slot_by_client_id,
}
use zonal_zero_trust_auth.Tlm.Invariant
use zonal_zero_trust_auth.Tlm.Invariant.Find.{found}
use zonal_zero_trust_auth.Tlm.Slots.{ended_slot}
use zonal_zero_trust_auth.Tlm.Register.Stages.{order_of}
use zonal_zero_trust_auth.Tlm.Sessions.Valid.{
  revoke_token-none, revoke_token-IsValid, slot_at-revoke_token,
}
use zonal_zero_trust_auth.Tlm.Register.Outcome.{Holds, register_barred}
use zonal_zero_trust_auth.Adaptor.{
  AdaptorStatus, Adaptor, empty_token, decode_response, spdm_ok, engine_at, put_engine, find_slot,
  register_session, complete_handshake, on_auth_response,
}
use zonal_zero_trust_auth.Adaptor.Valid.{IsValid, response-IsBacked}
use zonal_zero_trust_auth.Adaptor.Events.{IsPayload, head-IsClientId}
use zonal_zero_trust_auth.Adaptor.Hooks.{slot_bound, spdm_ok-ok}
use zonal_zero_trust_auth.Adaptor.Housing.{IsCovered, IsHoused-nonzero}
use zonal_zero_trust_auth.Adaptor.Housing.Room.{open_place}
use zonal_zero_trust_auth.Adaptor.Login.Offer.{engine-put_engine}
use zonal_zero_trust_auth.Adaptor.Login.Register.{register_token-Holds}
use Anomaly.{Counted, revoke_token-Counted}

pub spdm_bad : (st : SpdmStatus) → spdm_ok st ≡ false → st ≢ SpdmStatus.ok
spdm_bad st f q = ground arith

module _ (p : CryptoPlatform) where
  -- What the engine at an index makes of the response.
  abbrev pub handled : Adaptor p → ℕ → SpdmAuthResponse → Responded p.State
  handled a i response = process_auth_response p (engine_at p a i) response empty_token a.platform

  -- The three answers to a response of a client with a slot.
  abbrev pub Completed : Adaptor p → ℕ → SpdmAuthResponse → ℕ → AdaptorStatus × Adaptor p → Type 0
  Completed a i response now out =
      let done = handled a i response in
      let x = response.client_id in
      (done.status ≡ SpdmStatus.ok)
        × (is_locked_out a.tlm x ≡ false)
        × (out.0 ≡ AdaptorStatus.ok)
        × (done.token.client_id ≡ x)
        × Holds out.1.tlm done.token now
        × (engine_at p out.1 i ≡ done.engine)
      ⊎ (done.status ≡ SpdmStatus.ok)
        × (is_locked_out a.tlm x ≡ true)
        × (out.0 ≡ AdaptorStatus.locked_out)
        × (out.1.tlm ≡ a.tlm)
        × (engine_at p out.1 i ≡ Engine.revoke done.engine)
      ⊎ (done.status ≢ SpdmStatus.ok)
        × (out.0 ≡ AdaptorStatus.protocol_error)
        × Counted a.tlm x out.1.tlm
        × (engine_at p out.1 i ≡ done.engine)

  -- The five answers to a payload.
  abbrev pub Answered : Adaptor p → Option Bytes → ℕ → AdaptorStatus × Adaptor p → Type 0
  Answered a none now out = out ≡ (AdaptorStatus.invalid_frame, a)
  Answered a (some payload) now out =
      let response = decode_response payload in
      (length payload < spdm_auth_response_len) × (out ≡ (AdaptorStatus.invalid_frame, a))
      ⊎ (spdm_auth_response_len ≤ length payload)
        × (find_slot p a response.client_id ≡ none)
        × (out ≡ (AdaptorStatus.unknown_peer, a))
      ⊎ (spdm_auth_response_len ≤ length payload)
        × ((i : ℕ) × (find_slot p a response.client_id ≡ some i) × Completed a i response now out)

  registered_ok :
      (a : Adaptor p) (i : ℕ) (token : SpdmSessionToken) (now : ℕ)
      → (Tlm.register_token a.tlm token now).0 ≡ TlmStatus.ok
      → register_session p a i token now
        ≡ (AdaptorStatus.ok, record a { tlm = (Tlm.register_token a.tlm token now).1 })
  unfolding register_session
  registered_ok a i token now ok = rw ok refl

  registered_barred :
      (a : Adaptor p) (i : ℕ) (token : SpdmSessionToken) (now : ℕ)
      → Tlm.register_token a.tlm token now ≡ (TlmStatus.locked_out, a.tlm)
      → register_session p a i token now
        ≡ (AdaptorStatus.locked_out, put_engine p a i (Engine.revoke (engine_at p a i)))
  unfolding register_session
  registered_barred a i token now e = rw e refl

module _ (p : CryptoPlatform) (table : Option (List KnownPeerEntry)) (count : ℕ) (a : Adaptor p)
    (v : IsValid p table count a) (c : IsCovered p a) where
  complete_handshake-Completed :
      (i : ℕ) (response : SpdmAuthResponse) (now : ℕ)
      → IsClientId response.client_id
      → find_slot p a response.client_id ≡ some i
      → Completed p a i response now (complete_handshake p a i response now)
  unfolding complete_handshake
  complete_handshake-Completed i response now hx e =
      let x = response.client_id in
      let h = slot_bound p table count a x i v e in
      let done = handled p a i response in
      let b : Adaptor p = record (put_engine p a i done.engine) { platform = done.platform } in
      let placed : engine_at p b i ≡ done.engine =
        engine-put_engine p a i done.engine v.engines_size h in
      elim (Bool-cases (spdm_ok done.status)) [
        | inl good ↦
            let ok = spdm_ok-ok p table count done.status good in
            let (own, _) =
              response-IsBacked p table count (engine_at p a i) response empty_token a.platform
                (v.lookups i h) ok in
            let id : IsClientId done.token.client_id = subst IsClientId (sym own) hx in
            let nz : is_zero done.token.client_id ≡ false =
              ap is_zero own ∙ IsHoused-nonzero p a x c hx (i, e) in
            elim (Bool-cases (is_locked_out a.tlm x)) [
              | inl l ↦
                  let barred =
                    register_barred done.token now id a.tlm nz (ap (is_locked_out a.tlm) own ∙ l) in
                  rw good (
                    subst (Completed p a i response now)
                      (sym (registered_barred p b i done.token now barred))
                      (inr (
                        inl (
                          ok,
                          l,
                          refl,
                          refl,
                          engine-put_engine p b i (Engine.revoke (engine_at p b i))
                                (length-set a.engines i done.engine ∙ v.engines_size) h
                              ∙ ap Engine.revoke placed,
                        ))))
              | inr o ↦
                  let (k, hk, open_slot) = open_place p table count a v c x hx (i, e) o in
                  let (registered, holds) =
                    register_token-Holds a.tlm done.token now v.manager id nz
                      (ap (is_locked_out a.tlm) own ∙ o) k hk open_slot in
                  rw good (
                    subst (Completed p a i response now)
                      (sym (registered_ok p b i done.token now registered))
                      (inl (ok, o, refl, own, holds, placed)))
            ]
        | inr bad ↦
            let counted = revoke_token-Counted a.tlm v.manager x hx in
            rw bad (inr (inr (spdm_bad done.status bad, refl, counted, placed)))
      ]

  -- On a valid adaptor whose clients all have slots in the pool, `OnAuthResponse` gives exactly these
  -- answers. A null or short payload is a kInvalidFrame and a client without a slot a kUnknownPeer, both
  -- with nothing changed. For a client with a slot it is kOk if the engine accepts the response and the
  -- client is not locked out, and the manager then holds its token; kLockedOut if the engine accepts
  -- but the client is locked out, and the manager is left alone and the engine revoked; kProtocolError
  -- if the engine does not accept: then, if a slot of the session table names the client, its anomaly
  -- counter is raised, up to 255, it is locked out exactly if the counter has reached the threshold, and
  -- it has no session left, and if none does, the manager is as before and nothing is counted. So it
  -- never answers kSessionError.
  pub on_auth_response_lem :
      (payload : Option Bytes) (now : ℕ)
      → IsPayload payload
      → Answered p a payload now (on_auth_response p a payload now)
  unfolding on_auth_response
  on_auth_response_lem none now t = refl
  on_auth_response_lem (some payload) now t =
      let x = (decode_response payload).client_id in
      elim (Bool-cases (ltb (length payload) spdm_auth_response_len)) [
        | inl short ↦ rw short (inl (ground arith, refl))
        | inr long ↦
            let size : spdm_auth_response_len ≤ length payload = ground arith in
            elim (Option-cases (find_slot p a x)) [
              | inl e ↦ rw (long, e, on_auth_response) (inr (inl (size, refl, refl)))
              | inr (i, e) ↦
                  let room : client_id_len ≤ length payload = omega arith in
                  let done =
                    complete_handshake-Completed i (decode_response payload) now
                      (head-IsClientId payload room t) e in
                  rw (long, e, on_auth_response) (inr (inr (size, (i, refl, done))))
            ]
      ]
