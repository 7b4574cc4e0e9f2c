-- ===== src/Adaptor/Request.antt =====
-- `OnAuthRequest`: its four answers, each with its condition and what it leaves behind.
use zonal_zero_trust_auth.Base.{
  ℕ, ◌≤◌, ◌<◌, ◌≡◌, ◌≢◌, ◌⊎◌, refl, ap, List, [], ◌∷◌, ◌++◌, Option, none, some, length, ltb,
  if◌then◌else◌, arith, Bool-cases, Option-cases, inl, inr,
}
use mathlib.Core.List.{append-nil}
use zonal_zero_trust_auth.Platform.{Bytes, CryptoPlatform}
use zonal_zero_trust_auth.Engine.{
  KnownPeerEntry, SpdmAuthRequest, SpdmStatus, Requested, get_pending_challenge,
  process_auth_request, spdm_auth_request_len,
}
use zonal_zero_trust_auth.Adaptor.{
  AdaptorStatus, Adaptor, Frame, decode_request, spdm_ok, engine_at, find_slot,
  some_ip_method_id_challenge, transmit_challenge, forward_request, on_auth_request,
}
use zonal_zero_trust_auth.Adaptor.Valid.{IsValid}
use zonal_zero_trust_auth.Adaptor.Hooks.{slot_bound, spdm_ok-ok}
use zonal_zero_trust_auth.Adaptor.Login.Offer.{engine-put_engine}
use zonal_zero_trust_auth.Adaptor.Response.{spdm_bad}

module _ (p : CryptoPlatform) where
  -- What the engine at an index makes of the request.
  abbrev pub asked : Adaptor p → ℕ → SpdmAuthRequest → Requested p.State
  asked a i request = process_auth_request p (engine_at p a i) request a.platform

  -- The challenge that goes out, if there is a callback.
  abbrev pub challenge : Adaptor p → ℕ → SpdmAuthRequest → List Frame
  challenge a i request =
      if a.has_transmit
      then record {
        client_id = request.client_id;
        method_id = some_ip_method_id_challenge;
        payload = get_pending_challenge (asked a i request).engine;
      }
        ∷ []
      else []

  -- Neither the sessions nor the bindings are touched, and the engine is that of the protocol step.
  abbrev pub Stepped : Adaptor p → ℕ → SpdmAuthRequest → Adaptor p → Type 0
  Stepped a i request b =
      (b.tlm ≡ a.tlm)
      × (b.slot_records ≡ a.slot_records)
      × (engine_at p b i ≡ (asked a i request).engine)
      × (b.platform ≡ (asked a i request).platform)

  -- The two answers to a request of a client with a slot.
  abbrev pub Forwarded : Adaptor p → ℕ → SpdmAuthRequest → AdaptorStatus × Adaptor p → Type 0
  Forwarded a i request out =
      Stepped a i request out.1
      × (((asked a i request).status ≡ SpdmStatus.ok)
            × (out.0 ≡ AdaptorStatus.ok)
            × (out.1.transmitted ≡ a.transmitted ++ challenge a i request)
          ⊎ ((asked a i request).status ≢ SpdmStatus.ok)
            × (out.0 ≡ AdaptorStatus.protocol_error)
            × (out.1.transmitted ≡ a.transmitted))

  -- The four answers to a payload.
  abbrev pub Answered : Adaptor p → Option Bytes → AdaptorStatus × Adaptor p → Type 0
  Answered a none out = out ≡ (AdaptorStatus.invalid_frame, a)
  Answered a (some payload) out =
      let request = decode_request payload in
      (length payload < spdm_auth_request_len) × (out ≡ (AdaptorStatus.invalid_frame, a))
      ⊎ (spdm_auth_request_len ≤ length payload)
        × (find_slot p a request.client_id ≡ none)
        × (out ≡ (AdaptorStatus.unknown_peer, a))
      ⊎ (spdm_auth_request_len ≤ length payload)
        × ((i : ℕ) × (find_slot p a request.client_id ≡ some i) × Forwarded a i request out)

module _ (p : CryptoPlatform) (table : Option (List KnownPeerEntry)) (count : ℕ) (a : Adaptor p)
    (v : IsValid p table count a) where
  forward_request-Forwarded :
      (i : ℕ) (request : SpdmAuthRequest)
      → find_slot p a request.client_id ≡ some i
      → Forwarded p a i request (forward_request p a i request)
  unfolding forward_request transmit_challenge
  forward_request-Forwarded i request e =
      let h = slot_bound p table count a request.client_id i v e in
      let done = asked p a i request in
      let placed = engine-put_engine p a i done.engine v.engines_size h in
      elim (Bool-cases (spdm_ok done.status)) [
        | inr bad ↦ rw bad ((refl, refl, placed, refl), inr (spdm_bad done.status bad, refl, refl))
        | inl good ↦
            let ok = spdm_ok-ok p table count done.status good in
            elim (Bool-cases a.has_transmit) [
              | inl sends ↦
                  rw (good, sends)
                    (
                      (refl, refl, placed, refl),
                      inl (
                        ok,
                        refl,
                        ap
                            (λ (x : List ℕ).
                              a.transmitted
                              ++ record {
                                client_id = request.client_id;
                                method_id = some_ip_method_id_challenge;
                                payload = x;
                              }
                                ∷ [])
                            (ap get_pending_challenge placed),
                      ),
                    )
              | inr silent ↦
                  rw (good, silent) ((refl, refl, placed, refl), inl (ok, refl, rw append-nil refl))
            ]
      ]

  -- On a valid adaptor `OnAuthRequest` gives exactly these answers. A null or short payload is a
  -- kInvalidFrame and a client without a slot a kUnknownPeer, both with nothing changed. For a client
  -- with a slot the sessions and the bindings stay as they are, the client's engine makes its step, and
  -- the answer is kOk if the engine takes the request, and then the engine's challenge is sent to the
  -- client if there is a callback, and kProtocolError with nothing sent otherwise.
  pub on_auth_request_lem :
      (payload : Option Bytes) → Answered p a payload (on_auth_request p a payload)
  unfolding on_auth_request
  on_auth_request_lem none = refl
  on_auth_request_lem (some payload) =
      elim (Bool-cases (ltb (length payload) spdm_auth_request_len)) [
        | inl short ↦ rw short (inl (ground arith, refl))
        | inr long ↦
            let size : spdm_auth_request_len ≤ length payload = ground arith in
            elim (Option-cases (find_slot p a (decode_request payload).client_id)) [
              | inl e ↦ rw (long, e, on_auth_request) (inr (inl (size, refl, refl)))
              | inr (i, e) ↦
                  let done = forward_request-Forwarded i (decode_request payload) e in
                  rw (long, e, on_auth_request) (inr (inr (size, (i, refl, done))))
            ]
      ]
