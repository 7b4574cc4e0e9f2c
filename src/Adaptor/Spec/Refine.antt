-- ===== src/Adaptor/Spec/Refine.antt =====
-- The adaptor refines its abstract table of sessions, over every history of hook calls.
use mathlib.Core.Path.{subst}
use zonal_zero_trust_auth.Base.{
  ℕ, ◌≤◌, ◌≡◌, refl, sym, ap, ◌∙◌, List, [], ◌∷◌, Bool, true, Option, none, some, length, ltb,
  if◌then◌else◌, arith, Bool-cases, Option-cases, inl, inr,
}
use zonal_zero_trust_auth.Platform.{
  Bytes, ClientId, SessionKey, IsClientId, CryptoPlatform, client_id_len,
}
use zonal_zero_trust_auth.Ring
use zonal_zero_trust_auth.Engine.{KnownPeerEntry, SpdmAuthResponse, spdm_auth_response_len}
use zonal_zero_trust_auth.Tlm
use zonal_zero_trust_auth.Tlm.{
  TlmStatus, TokenLifecycleManager, Validated, is_locked_out, validate_token, copy_out,
}
use zonal_zero_trust_auth.Tlm.Spec.View.{sessions}
use zonal_zero_trust_auth.Tlm.Spec.Sweep.{sessions-evaluate_token_expiry}
use zonal_zero_trust_auth.Tlm.Spec.Refine.{validate_token-Answers, sessions-revoke_token}
use zonal_zero_trust_auth.Adaptor.{
  AdaptorStatus, Adaptor, empty_token, decode_response, spdm_ok, engine_at, construct, find_slot,
  on_auth_response, complete_handshake, on_session_tick, is_session_active,
}
use zonal_zero_trust_auth.Adaptor.Valid.{IsValid, response-IsBacked}
use zonal_zero_trust_auth.Adaptor.Events.{
  Event, offers, requests, responds, ticks, queries, revokes, IsPayload, IsTyped, AllTyped, step,
  run, head-IsClientId,
}
use zonal_zero_trust_auth.Adaptor.Hooks.{
  step-IsValid, run-IsValid, construct-IsValid, slot_bound, spdm_ok-ok,
}
use zonal_zero_trust_auth.Adaptor.Gate.{revoke_session-tlm}
use zonal_zero_trust_auth.Adaptor.Calls.{IsHoused, offer-tlm, request-tlm, handshake-tlm}
use zonal_zero_trust_auth.Adaptor.Housing.{AllNamed, IsCovered}
use zonal_zero_trust_auth.Adaptor.Housing.History.{step-IsCovered, construct-IsCovered}
use zonal_zero_trust_auth.Adaptor.Response.{handled}
use zonal_zero_trust_auth.Adaptor.Spec.{
  Effect, nothing, opens, closes, asks, apply, apply_all, verdict, effect, effects,
}
use zonal_zero_trust_auth.Adaptor.Spec.Table.{sessions-barred, sessions-opened}
use zonal_zero_trust_auth.Adaptor.Spec.Answers.{
  is_session_active_lem, GateAnswers, is_session_active-GateAnswers,
}

module _ (p : CryptoPlatform) (table : Option (List KnownPeerEntry)) (count : ℕ) (a : Adaptor p)
    (v : IsValid p table count a) (c : IsCovered p a) where
  -- The effect on the sessions is the one named.
  abbrev HasEffect : Effect → Adaptor p → Type 0
  HasEffect f b = sessions b.tlm ≡ apply f (sessions a.tlm)

  handshake-HasEffect :
      (i : ℕ) (response : SpdmAuthResponse) (now : ℕ)
      → IsClientId response.client_id
      → find_slot p a response.client_id ≡ some i
      → let done = handled p a i response in
        HasEffect
          (if spdm_ok done.status
            then if is_locked_out a.tlm response.client_id then nothing else opens done.token now
            else closes response.client_id)
          (complete_handshake p a i response now).1
  unfolding apply
  handshake-HasEffect i response now hx e =
      let x = response.client_id in
      let h = slot_bound p table count a x i v e in
      let done = handled p a i response in
      let same = ap sessions (handshake-tlm p a i response now) in
      elim (Bool-cases (spdm_ok done.status)) [
        | inr bad ↦ rw bad (same ∙ rw bad (sessions-revoke_token a.tlm v.manager x hx true))
        | inl good ↦
            let (own, _) =
              response-IsBacked p table count (engine_at p a i) response empty_token a.platform
                (v.lookups i h) (spdm_ok-ok p table count done.status good) in
            let id : IsClientId done.token.client_id = subst IsClientId (sym own) hx in
            let home : IsHoused p a done.token.client_id = (i, ap (find_slot p a) own ∙ e) in
            elim (Bool-cases (is_locked_out a.tlm x)) [
              | inl l ↦
                  let barred =
                    sessions-barred p table count a v c done.token now id home
                      (ap (is_locked_out a.tlm) own ∙ l) in
                  rw (good, l) (same ∙ rw good barred)
              | inr o ↦
                  let opened =
                    sessions-opened p table count a v c done.token now id home
                      (ap (is_locked_out a.tlm) own ∙ o) in
                  rw (good, o) (same ∙ rw good opened)
            ]
      ]

  response-HasEffect :
      (payload : Option Bytes) (now : ℕ)
      → IsPayload payload
      → HasEffect (verdict p a payload now) (on_auth_response p a payload now).1
  unfolding on_auth_response verdict apply
  response-HasEffect none now t = refl
  response-HasEffect (some payload) now t =
      elim (Bool-cases (ltb (length payload) spdm_auth_response_len)) [
        | inl short ↦ rw short refl
        | inr long ↦ elim (Option-cases (find_slot p a (decode_response payload).client_id)) [
          | inl e ↦ rw (long, e, on_auth_response, verdict) refl
          | inr (i, e) ↦
              let room : client_id_len ≤ length payload = ground arith in
              rw (long, e, on_auth_response, verdict)
                (handshake-HasEffect i (decode_response payload) now
                  (head-IsClientId payload room t) e)
        ]
      ]

  query-HasEffect :
      (x : ClientId) (now : ℕ) (out : Option SessionKey)
      → IsClientId x
      → HasEffect (asks x now) (is_session_active p a x now out).2
  unfolding apply
  query-HasEffect x now out hx =
      ap (λ (r : AdaptorStatus × Option SessionKey × Adaptor p). sessions r.2.tlm)
        (is_session_active_lem p a x now out)
      ∙ (validate_token-Answers a.tlm v.manager x hx now out).0

  step-HasEffect : (e : Event) → IsTyped e → HasEffect (effect p a e) (step p a e)
  unfolding step effect apply on_session_tick
  step-HasEffect (offers x) t = ap sessions (offer-tlm p a x)
  step-HasEffect (requests payload) t = ap sessions (request-tlm p a payload)
  step-HasEffect (responds payload now) t = response-HasEffect payload now t
  step-HasEffect (ticks now) t = sessions-evaluate_token_expiry now a.tlm v.manager
  step-HasEffect (queries x now out) t = query-HasEffect x now out t
  step-HasEffect (revokes x is_anomaly) t =
      ap sessions (revoke_session-tlm p a x is_anomaly)
      ∙ sessions-revoke_token a.tlm v.manager x t is_anomaly

module _ (p : CryptoPlatform) (table : Option (List KnownPeerEntry)) (count : ℕ) where
  run-HasEffects :
      (es : List Event)
      → AllTyped es
      → AllNamed es
      → (a : Adaptor p) → IsValid p table count a
      → IsCovered p a
      → sessions (run p a es).tlm ≡ apply_all (effects p a es) (sessions a.tlm)
  unfolding run effects apply_all
  run-HasEffects [] t named a v c = refl
  run-HasEffects (e ∷ es) t named a v c =
      run-HasEffects es t.1 named.1 (step p a e) (step-IsValid p table count a e t.0 v)
        (step-IsCovered p table count a e t.0 named.0 v c)
      ∙ ap (apply_all (effects p (step p a e) es)) (step-HasEffect p table count a v c e t.0)

  empty_sessions :
      (platform : p.State) (has_transmit has_callback : Bool)
      → sessions (construct p platform table count has_transmit has_callback).tlm ≡ []
  unfolding construct Tlm.construct Ring.empty
  empty_sessions platform has_transmit has_callback = refl

  -- After any history of hook calls on a fresh adaptor that never revokes the all-zero identifier,
  -- the sessions of the table, oldest first, are what the effects of the history make of the empty
  -- list, with no regard to the capacity of the table; and `IsSessionActive` answers from that list.
  pub run-construct-sessions :
      (platform : p.State) (has_transmit has_callback : Bool) (es : List Event)
      → AllTyped es
      → AllNamed es
      → (x : ClientId) → IsClientId x
      → (now : ℕ) (old : SessionKey)
      → let start = construct p platform table count has_transmit has_callback in
        let l = apply_all (effects p start es) [] in
        (sessions (run p start es).tlm ≡ l) × GateAnswers p (run p start es) x now old l
  run-construct-sessions platform has_transmit has_callback es t named x hx now old =
      let start = construct p platform table count has_transmit has_callback in
      let v = construct-IsValid p table count platform has_transmit has_callback in
      let c = construct-IsCovered p table count platform has_transmit has_callback in
      let same : sessions (run p start es).tlm ≡ apply_all (effects p start es) [] =
        run-HasEffects es t named start v c
        ∙ ap (apply_all (effects p start es)) (empty_sessions platform has_transmit has_callback) in
      (
        same,
        subst (GateAnswers p (run p start es) x now old) same (
            is_session_active-GateAnswers p table count (run p start es)
              (run-IsValid p table count start es t v) x hx now old),
      )
