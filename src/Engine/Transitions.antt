-- ===== src/Engine/Transitions.antt =====
-- Histories of calls on one engine, and what a history must hold for the engine to count as
-- authenticated.
use zonal_zero_trust_auth.Base.{◌≡◌, ◌≢◌, ◌⊎◌, ◌∙◌, inl, inr, refl, ap, List, [], ◌∷◌, ◌++◌, arith}
use zonal_zero_trust_auth.Platform.{EccPublicKey, SessionKey, CryptoPlatform}
use zonal_zero_trust_auth.Engine.{
  SpdmProtocolEngine, SpdmAuthRequest, SpdmAuthResponse, SpdmSessionToken, SpdmStatus, State,
  process_auth_response, process_auth_request, revoke, reset,
}
use zonal_zero_trust_auth.Engine.Handshake.{Accepts, process_auth_response-Accepts}

-- The calls that a user of an engine can make.
pub data Call : Type 0 where
  requests : SpdmAuthRequest → Call
  responds : SpdmAuthResponse → SpdmSessionToken → Call
  revokes : Call
  resets : Call

module _ (p : CryptoPlatform) where
  unfoldable pub step : SpdmProtocolEngine × p.State → Call → SpdmProtocolEngine × p.State
  step (e, s) (requests request) =
      let out = process_auth_request p e request s in (out.engine, out.platform)
  step (e, s) (responds response token) =
      let out = process_auth_response p e response token s in (out.engine, out.platform)
  step (e, s) revokes = (revoke e, s)
  step (e, s) resets = (reset e, s)

  unfoldable pub run : SpdmProtocolEngine × p.State → List Call → SpdmProtocolEngine × p.State
  run es [] = es
  run es (c ∷ cs) = run (step es c) cs

  -- The accepted response behind an authenticated engine: its place in the history, that it passed the
  -- five checks on the engine and the platform as the calls before it left them, and that the engine's
  -- authenticated identifier is the one that the response names.
  pub record Confirmed (es : SpdmProtocolEngine × p.State) (cs : List Call) : Type 0 where
    pub before : List Call
    pub after : List Call
    pub response : SpdmAuthResponse
    pub token : SpdmSessionToken
    pub split : cs ≡ before ++ responds response token ∷ after
    pub key : EccPublicKey
    pub session : SessionKey
    pub s3 : p.State
    pub accepts : Accepts p (run es before).0 response (run es before).1 key session s3
    pub identity : (run es cs).0.authenticated_client_id ≡ response.client_id

  -- Where an authenticated engine comes from, over one call.
  abbrev Origin : SpdmProtocolEngine → p.State → Call → Type 0
  Origin e s c =
      (e.state ≡ State.authenticated)
      × ((step (e, s) c).0.authenticated_client_id ≡ e.authenticated_client_id)

  abbrev Fresh : SpdmProtocolEngine → p.State → Call → Type 0
  Fresh e s c =
      (response : SpdmAuthResponse) × (token : SpdmSessionToken) × (c ≡ responds response token)
      × ((process_auth_response p e response token s).status ≡ SpdmStatus.ok)
      × ((step (e, s) c).0.authenticated_client_id ≡ response.client_id)

  response-origin :
      (e : SpdmProtocolEngine) (s : p.State) (response : SpdmAuthResponse)
      (token : SpdmSessionToken)
      → let out = process_auth_response p e response token s in
        out.engine.state ≡ State.authenticated
        → ((e.state ≡ State.authenticated)
            × (out.engine.authenticated_client_id ≡ e.authenticated_client_id))
          ⊎ ((out.status ≡ SpdmStatus.ok)
              × (out.engine.authenticated_client_id ≡ response.client_id))
  unfolding process_auth_response revoke
  response-origin e s response token h = ground arith

  request-origin :
      (e : SpdmProtocolEngine) (s : p.State) (request : SpdmAuthRequest)
      → let out = process_auth_request p e request s in
        out.engine.state ≡ State.authenticated
        → (e.state ≡ State.authenticated)
          × (out.engine.authenticated_client_id ≡ e.authenticated_client_id)
  unfolding process_auth_request
  request-origin e s request h = ground arith

  step-Origin :
      (e : SpdmProtocolEngine) (s : p.State) (c : Call)
      → (step (e, s) c).0.state ≡ State.authenticated
      → Origin e s c ⊎ Fresh e s c
  unfolding step revoke reset
  step-Origin e s (requests request) h = inl (request-origin e s request h)
  step-Origin e s (responds response token) h = elim (response-origin e s response token h) [
    | inl old ↦ inl old
    | inr (ok, id) ↦ inr (response, token, refl, ok, id)
  ]
  step-Origin e s revokes h = absurd (cc)
  step-Origin e s resets h = absurd (cc)

  run-Origin :
      (es : SpdmProtocolEngine × p.State) (cs : List Call)
      → (run es cs).0.state ≡ State.authenticated
      → ((es.0.state ≡ State.authenticated)
          × ((run es cs).0.authenticated_client_id ≡ es.0.authenticated_client_id))
        ⊎ Confirmed es cs
  unfolding run
  run-Origin es [] h = inl (h, refl)
  run-Origin es (c ∷ cs) h = elim (run-Origin (step es c) cs h) [
    | inr later ↦ inr (record {
      before = c ∷ later.before;
      after = later.after;
      response = later.response;
      token = later.token;
      split = ap (◌∷◌ c) later.split;
      key = later.key;
      session = later.session;
      s3 = later.s3;
      accepts = later.accepts;
      identity = later.identity;
    })
    | inl (now, id) ↦ elim (step-Origin es.0 es.1 c now) [
      | inl (old, kept) ↦ inl (old, id ∙ kept)
      | inr (response, token, e, ok, id') ↦
          let (key, session, s3, a) = process_auth_response-Accepts p es.0 response token es.1 ok in
          inr (record {
            before = [];
            after = cs;
            response = response;
            token = token;
            split = ap (λ d. d ∷ cs) e;
            key = key;
            session = session;
            s3 = s3;
            accepts = a;
            identity = id ∙ id';
          })
    ]
  ]

  -- Take an engine that is not authenticated and a history of calls after which it is. Then some
  -- response in that history was awaited when it came, named the pending client, had a key in the peer
  -- table, and passed the digest of nonce and identifier, the check of its signature over that digest
  -- under that key, and the key derivation of the platform; and the engine carries its identifier.
  pub authenticated-Confirmed :
      (e : SpdmProtocolEngine) (s : p.State) (cs : List Call)
      → e.state ≢ State.authenticated
      → (run (e, s) cs).0.state ≡ State.authenticated
      → Confirmed (e, s) cs
  authenticated-Confirmed e s cs fresh h = elim (run-Origin (e, s) cs h) [
    | inl (old, _) ↦ absurd (fresh old)
    | inr c ↦ c
  ]
