-- ===== src/Adaptor/Refusals.antt =====
-- What the hooks refuse at the door, and that a refusal leaves the adaptor alone.
use zonal_zero_trust_auth.Base.{
  ℕ, [], ◌<◌, ◌≡◌, ◌≢◌, ◌⊎◌, refl, Option, none, some, length, ltb, arith, Bool-cases, Option-cases,
  inl, inr,
}
use zonal_zero_trust_auth.Platform.{Bytes, ClientId, CryptoPlatform}
use zonal_zero_trust_auth.Engine.{
  SpdmAuthRequest, SpdmAuthResponse, spdm_auth_request_len, spdm_auth_response_len,
}
use zonal_zero_trust_auth.Adaptor.{
  AdaptorStatus, Adaptor, decode_request, decode_response, find_slot, on_peer_offered,
  forward_request, on_auth_request, register_session, complete_handshake, on_auth_response,
}

-- A null pointer, or fewer bytes than the frame has.
abbrev pub IsBad : ℕ → Option Bytes → Type 0
IsBad frame_len none = Unit
IsBad frame_len (some payload) = length payload < frame_len

module _ (p : CryptoPlatform) where
  -- What a hook for frames answers: bad frames and clients without a slot are refused with nothing
  -- changed, and these two answers are given to no other frame.
  abbrev pub Refuses : Adaptor p → Type 0 → Type 0 → AdaptorStatus × Adaptor p → Type 0
  Refuses a Bad Unbound out =
      Bad × (out ≡ (AdaptorStatus.invalid_frame, a))
      ⊎ (¬ Bad) × Unbound × (out ≡ (AdaptorStatus.unknown_peer, a))
      ⊎ (¬ Bad)
        × (¬ Unbound)
        × (out.0 ≢ AdaptorStatus.invalid_frame)
        × (out.0 ≢ AdaptorStatus.unknown_peer)

  forward_status :
      (a : Adaptor p) (i : ℕ) (request : SpdmAuthRequest)
      → let out = forward_request p a i request in
        (out.0 ≢ AdaptorStatus.invalid_frame) × (out.0 ≢ AdaptorStatus.unknown_peer)
  unfolding forward_request
  forward_status a i request = ground arith

  handshake_status :
      (a : Adaptor p) (i : ℕ) (response : SpdmAuthResponse) (now : ℕ)
      → let out = complete_handshake p a i response now in
        (out.0 ≢ AdaptorStatus.invalid_frame) × (out.0 ≢ AdaptorStatus.unknown_peer)
  unfolding complete_handshake register_session
  handshake_status a i response now = ground arith

  -- The client that a frame names.
  abbrev pub requester : Option Bytes → ClientId
  requester none = []
  requester (some payload) = (decode_request payload).client_id

  abbrev pub responder : Option Bytes → ClientId
  responder none = []
  responder (some payload) = (decode_response payload).client_id

  request-Refuses :
      (a : Adaptor p) (payload : Option Bytes)
      → Refuses a
          (IsBad spdm_auth_request_len payload)
          (find_slot p a (requester payload) ≡ none)
          (on_auth_request p a payload)
  unfolding on_auth_request
  request-Refuses a none = inl (tt, refl)
  request-Refuses a (some payload) =
      elim (Bool-cases (ltb (length payload) spdm_auth_request_len)) [
        | inl short ↦ rw short (inl (ground arith, refl))
        | inr long ↦
            let good : ¬ (length payload < spdm_auth_request_len) = λ h. ground arith in
            elim (Option-cases (find_slot p a (decode_request payload).client_id)) [
              | inl e ↦ rw (long, e, on_auth_request) (inr (inl (good, refl, refl)))
              | inr (i, e) ↦
                  let (one, two) = forward_status a i (decode_request payload) in
                  rw (long, e, on_auth_request) (inr (inr (good, (λ q. ground arith), one, two)))
            ]
      ]

  response-Refuses :
      (a : Adaptor p) (payload : Option Bytes) (now : ℕ)
      → Refuses a
          (IsBad spdm_auth_response_len payload)
          (find_slot p a (responder payload) ≡ none)
          (on_auth_response p a payload now)
  unfolding on_auth_response
  response-Refuses a none now = inl (tt, refl)
  response-Refuses a (some payload) now =
      elim (Bool-cases (ltb (length payload) spdm_auth_response_len)) [
        | inl short ↦ rw short (inl (ground arith, refl))
        | inr long ↦
            let good : ¬ (length payload < spdm_auth_response_len) = λ h. ground arith in
            elim (Option-cases (find_slot p a (decode_response payload).client_id)) [
              | inl e ↦ rw (long, e, on_auth_response) (inr (inl (good, refl, refl)))
              | inr (i, e) ↦
                  let (one, two) = handshake_status a i (decode_response payload) now in
                  rw (long, e, on_auth_response) (inr (inr (good, (λ q. ground arith), one, two)))
            ]
      ]

  -- On every adaptor, a request or response frame that is null or too short is answered with
  -- kInvalidFrame and one for a client without a slot with kUnknownPeer, both with nothing changed, and
  -- no other frame gets these answers; and an offer that is not answered with kOk changes nothing.
  pub hooks_refuse :
      (a : Adaptor p) (payload : Option Bytes) (now : ℕ) (x : ClientId)
      → Refuses a
          (IsBad spdm_auth_request_len payload)
          (find_slot p a (requester payload) ≡ none)
          (on_auth_request p a payload)
        × Refuses a
            (IsBad spdm_auth_response_len payload)
            (find_slot p a (responder payload) ≡ none)
            (on_auth_response p a payload now)
        × (((on_peer_offered p a x).0 ≡ AdaptorStatus.ok) ⊎ ((on_peer_offered p a x).1 ≡ a))
  unfolding on_peer_offered
  hooks_refuse a payload now x =
      (request-Refuses a payload, response-Refuses a payload now, ground arith)
