-- ===== src/Adaptor/Replay.antt =====
-- Challenges and admissions counted for each slot of the pool: a challenge is good for one login.
mod Waits
use mathlib.Core.Path.{subst}
use zonal_zero_trust_auth.Base.{
  at_index, get_or-replicate, and_false, ℕ, ◌+◌, ◌≤◌, ◌<◌, ◌≡◌, ◌≢◌, refl, sym, ap, ◌∙◌, List, [],
  ◌∷◌, Bool, true, false, ◌&&◌, Option, none, some, bit, length, length-set, ltb, get_or-set, ◌==◌,
  ==_iff, if◌then◌else◌, arith, Bool-cases, Option-cases, inl, inr,
}
use zonal_zero_trust_auth.Platform.{Bytes, ClientId, SessionKey, CryptoPlatform}
use zonal_zero_trust_auth.Engine
use zonal_zero_trust_auth.Engine.{
  KnownPeerEntry, SpdmProtocolEngine, SpdmAuthRequest, SpdmAuthResponse, SpdmSessionToken,
  SpdmStatus, is_challenge_sent, process_auth_request, process_auth_response,
  spdm_auth_response_len, spdm_auth_request_len,
}
use zonal_zero_trust_auth.Tlm
use zonal_zero_trust_auth.Adaptor.{
  AdaptorStatus, Adaptor, max_zone_slots, empty_token, spdm_ok, tlm_ok, decode_request,
  decode_response, on_peer_offered, engine_at, put_engine, find_slot, on_auth_request,
  on_auth_response, complete_handshake, register_session, construct, revoke_session, revoke_engine,
  is_session_active, on_session_tick,
}
use zonal_zero_trust_auth.Adaptor.Valid.{IsValid}
use zonal_zero_trust_auth.Adaptor.Events.{
  Event, offers, requests, responds, ticks, queries, revokes, IsTyped, AllTyped, step, run,
}
use zonal_zero_trust_auth.Adaptor.Offer.{on_peer_offered_lem}
use zonal_zero_trust_auth.Adaptor.Hooks.{slot_bound, step-IsValid, construct-IsValid}
use Waits.{
  is_ok, waits, waits-revoke, waits-reset, idle-waits, same-waits, handshake-waits, forward-waits,
}

module _ (p : CryptoPlatform) where
  -- The event is a request of the client of the slot that is answered with kOk, that is with a
  -- challenge; it is a response of that client that is answered with kOk.
  abbrev pub challenges : ℕ → Adaptor p → Event → Bool
  challenges i a (requests (some payload)) =
      at_index (find_slot p a (decode_request payload).client_id) i
      && is_ok (on_auth_request p a (some payload)).0
  challenges i a _ = false

  abbrev pub admits : ℕ → Adaptor p → Event → Bool
  admits i a (responds (some payload) now) =
      at_index (find_slot p a (decode_response payload).client_id) i
      && is_ok (on_auth_response p a (some payload) now).0
  admits i a _ = false

  -- How many events of a history do so.
  unfoldable pub challenged : ℕ → Adaptor p → List Event → ℕ
  challenged i a [] = 0
  challenged i a (e ∷ es) = bit (challenges i a e) + challenged i (step p a e) es

  unfoldable pub admitted : ℕ → Adaptor p → List Event → ℕ
  admitted i a [] = 0
  admitted i a (e ∷ es) = bit (admits i a e) + admitted i (step p a e) es

module _ (p : CryptoPlatform) (table : Option (List KnownPeerEntry)) (count : ℕ) (a : Adaptor p)
    (v : IsValid p table count a) (i : ℕ) where
  offer-waits :
      (x : ClientId) → waits (engine_at p (on_peer_offered p a x).1 i) ≤ waits (engine_at p a i)
  offer-waits x = elim (on_peer_offered_lem p table count a v x) [
    | inl (z, same) ↦ rw same (omega arith)
    | inr (inl (nz, l, same)) ↦ rw same (omega arith)
    | inr (inr (inl (nz, o, away, full, same))) ↦ rw same (omega arith)
    | inr (inr (inr (nz, o, answer, (k, has, (done, others))))) ↦ elim (Bool-cases (k == i)) [
      | inl own ↦
          let here : engine_at p (on_peer_offered p a x).1 i ≡ Engine.reset (engine_at p a k) =
            subst (λ j. engine_at p (on_peer_offered p a x).1 j ≡ Engine.reset (engine_at p a k))
              ((==_iff k i).0 own) done.engine in
          rw here (omega (arith, waits-reset (engine_at p a k)))
      | inr other ↦
          same-waits p a (on_peer_offered p a x).1 i (others i (λ q. ground (arith, ==_iff k i))).0
    ]
  ]

  request-step :
      (payload : Option Bytes)
      → waits (engine_at p (on_auth_request p a payload).1 i)
        ≤ bit (challenges p i a (requests payload)) + waits (engine_at p a i)
  unfolding on_auth_request
  request-step none = omega arith
  request-step (some payload) =
      let request = decode_request payload in
      elim (Bool-cases (ltb (length payload) spdm_auth_request_len)) [
        | inl short ↦ rw (short, on_auth_request) (omega arith)
        | inr long ↦ elim (Option-cases (find_slot p a request.client_id)) [
          | inl e ↦ rw (long, e, on_auth_request) (omega arith)
          | inr (k, e) ↦
              rw (long, e, on_auth_request)
                (forward-waits p a k i request v.engines_size
                  (slot_bound p table count a request.client_id k v e))
        ]
      ]

  response-step :
      (payload : Option Bytes) (now : ℕ)
      → bit (admits p i a (responds payload now))
          + waits (engine_at p (on_auth_response p a payload now).1 i)
        ≤ waits (engine_at p a i)
  unfolding on_auth_response
  response-step none now = omega arith
  response-step (some payload) now =
      let response = decode_response payload in
      elim (Bool-cases (ltb (length payload) spdm_auth_response_len)) [
        | inl short ↦
            rw (short, on_auth_response)
              (omega (arith, ap bit (and_false (at_index (find_slot p a response.client_id) i))))
        | inr long ↦ elim (Option-cases (find_slot p a response.client_id)) [
          | inl e ↦ rw (long, e, on_auth_response) (omega arith)
          | inr (k, e) ↦
              rw (long, e, on_auth_response)
                (handshake-waits p a k i response now v.engines_size
                  (slot_bound p table count a response.client_id k v e))
        ]
      ]

  revoke-waits :
      (x : ClientId) (is_anomaly : Bool)
      → waits (engine_at p (revoke_session p a x is_anomaly).1 i) ≤ waits (engine_at p a i)
  unfolding revoke_session revoke_engine
  revoke-waits x is_anomaly = elim (Option-cases (find_slot p a x)) [
    | inl e ↦ rw (e, revoke_engine) (omega arith)
    | inr (k, e) ↦
        rw (e, revoke_engine)
          (idle-waits p a k i (Engine.revoke (engine_at p a k)) v.engines_size
            (slot_bound p table count a x k v e) (waits-revoke (engine_at p a k)))
  ]

  query-engine_at :
      (x : ClientId) (now : ℕ) (out : Option SessionKey)
      → engine_at p (is_session_active p a x now out).2 i ≡ engine_at p a i
  unfolding is_session_active
  query-engine_at x now out = ground arith

  -- An event that admits uses up the challenge of its slot, and only an event that challenges opens one.
  step-waits :
      (e : Event)
      → bit (admits p i a e) + waits (engine_at p (step p a e) i)
        ≤ bit (challenges p i a e) + waits (engine_at p a i)
  unfolding step on_session_tick
  step-waits (offers x) = omega (arith, offer-waits x)
  step-waits (requests none) = omega (arith, request-step none)
  step-waits (requests (some payload)) = omega (arith, request-step (some payload))
  step-waits (responds none now) = omega (arith, response-step none now)
  step-waits (responds (some payload) now) = omega (arith, response-step (some payload) now)
  step-waits (ticks now) = omega arith
  step-waits (queries x now out) =
      omega
        (arith, same-waits p a (is_session_active p a x now out).2 i (query-engine_at x now out))
  step-waits (revokes x is_anomaly) = omega (arith, revoke-waits x is_anomaly)

module _ (p : CryptoPlatform) (table : Option (List KnownPeerEntry)) (count : ℕ) where
  run-waits :
      (i : ℕ) (a : Adaptor p) (es : List Event)
      → AllTyped es
      → IsValid p table count a
      → admitted p i a es + waits (engine_at p (run p a es) i)
        ≤ challenged p i a es + waits (engine_at p a i)
  unfolding admitted challenged run
  run-waits i a [] t v = omega arith
  run-waits i a (e ∷ es) t v = omega (
    arith,
    step-waits p table count a v i e,
    run-waits i (step p a e) es t.1 (step-IsValid p table count a e t.0 v),
  )

  construct-idle :
      (i : ℕ) (platform : p.State) (has_transmit has_callback : Bool)
      → waits (engine_at p (construct p platform table count has_transmit has_callback) i) ≡ 0
  unfolding construct Engine.construct
  construct-idle i platform has_transmit has_callback =
      rw (get_or-replicate max_zone_slots i (Engine.construct table count)) refl

  -- No challenge lets a client in twice, whatever the order of the calls and however the logins are
  -- interleaved. Over every history of hook calls on a fresh adaptor, and for every slot of the pool,
  -- no more responses of clients of the slot are answered with kOk than requests of clients of the
  -- slot, and one fewer while the slot's engine awaits a response.
  pub admitted-challenged :
      (i : ℕ) (platform : p.State) (has_transmit has_callback : Bool) (es : List Event)
      → AllTyped es
      → let a = construct p platform table count has_transmit has_callback in
        admitted p i a es + bit (is_challenge_sent (engine_at p (run p a es) i).state)
        ≤ challenged p i a es
  admitted-challenged i platform has_transmit has_callback es t =
      let a = construct p platform table count has_transmit has_callback in
      omega (
        arith,
        run-waits i a es t (construct-IsValid p table count platform has_transmit has_callback),
        construct-idle i platform has_transmit has_callback,
      )
